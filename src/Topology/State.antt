-- ===== src/Topology/State.antt =====
-- What GraphExecutor::Impl of src/rcllite/graph_executor.cpp holds. The entity of a subscription is
-- named by its read condition.
use rcllite.Prelude.{ℕ, zero, suc, Option, List, [], ◌∷◌, Bytes, map}
use rcllite.Dds.Calls.{Io, ◌>>=◌, return}
use rcllite.Dds.Entities.{Writer, Reader}
use rcllite.Node.Construct.{NodeOwner}
use rcllite.Parameter.Services.{ParameterImpl}
use rcllite.Executor.Core.{Executor, NodeView}

pub record RawPublisher : Type 0 where
  pub topic : Bytes
  pub type : Bytes
  pub writer : Writer
  pub payload : Bytes
  pub rate_hz : ℕ
  pub published : ℕ

pub record RawSubscription : Type 0 where
  pub topic : Bytes
  pub type : Bytes
  pub reader : Reader
  pub received : ℕ

pub record NodeEntry : Type 0 where
  pub fq_name : Bytes
  pub namespace_ : Bytes
  pub owner : NodeOwner
  pub params : Option ParameterImpl
  pub publishers : List RawPublisher
  pub subscriptions : List RawSubscription

pub record GraphExecutor : Type 0 where
  pub executor : Executor
  pub nodes : List NodeEntry

-- What the executor sees of a node; an entity and its condition have one name.
abbrev pub view_of : NodeOwner → NodeView
view_of n = record {
  change_guard = n.change_guard;
  entities = map (λ e. (e, e)) n.node.entities;
  entity_epoch = n.node.entity_epoch;
}

-- The node with a number; behind the last one there is `other`.
abbrev pub view_at : List NodeEntry → NodeOwner → ℕ → NodeView
view_at [] other i = view_of other
view_at (n ∷ ns) other zero = view_of n.owner
view_at (n ∷ ns) other (suc i) = view_at ns other i

-- `for (x : xs) f(x)`, where the body changes a state and may throw.
abbrev pub for_each : {X S : Type 0} → (S → X → Io S) → List X → S → Io S
for_each f [] s = return s
for_each f (x ∷ xs) s = do s' ← f s x; for_each f xs s'
