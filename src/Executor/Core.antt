-- ===== src/Executor/Core.antt =====
-- class Executor of src/rcllite/executor.cpp. Nodes and entities are named by numbers, as their
-- pointers are; `view` shows the node behind a number. Ids are taken not to wrap at 2 ^ 64, and the
-- maps of the source that have no order are gone through in the order of their keys.
use rcllite.Prelude.{
  ℕ, ◌+◌, Bool, true, false, not, ◌&&◌, ◌||◌, Option, none, some, List, [], ◌∷◌, ◌++◌, ◌==◌,
  if◌then◌else◌,
}
use rcllite.Prelude.OrderedMap
use rcllite.Prelude.OrderedMap.{OrderedMap, number_key}
use rcllite.Names.Search.{found}

-- What the executor asks of a node: the handle of its change guard, its entities with their
-- conditions, and its epoch.
pub record NodeView : Type 0 where
  pub change_guard : ℕ
  pub entities : List (ℕ × ℕ)
  pub entity_epoch : ℕ

pub record Attached : Type 0 where
  pub cond : ℕ
  pub node : ℕ
  pub entity : Option ℕ

abbrev pub Desired : Type 0
Desired = OrderedMap ℕ Attached

pub record Executor : Type 0 where
  pub nodes : List ℕ
  pub attached : OrderedMap ℕ Attached
  pub node_epochs : OrderedMap ℕ ℕ
  pub next_attach_id : ℕ
  pub cancel_requested : Bool

-- The constructor; 1 and 2 are the ids of the executor's own guards.
unfoldable pub new_executor : Executor
new_executor = record {
  nodes = [];
  attached = [];
  node_epochs = [];
  next_attach_id = 2;
  cancel_requested = false;
}

-- The inner loop over the entities of a node.
unfoldable pub want_entities : ℕ → List (ℕ × ℕ) → Desired → Desired
want_entities node [] desired = desired
want_entities node ((cond, entity) ∷ es) desired =
    want_entities node es
      (OrderedMap.insert cond (record { cond = cond; node = node; entity = some entity }) desired)

-- The first loop of reconcile_locked, once for the conditions and once for the epochs.
unfoldable pub want : (ℕ → NodeView) → List ℕ → Desired → Desired
unfolding want_entities
want view [] desired = desired
want view (node ∷ nodes) desired =
    let guard = (view node).change_guard in
    want view nodes (
      want_entities node (view node).entities
        (OrderedMap.insert guard (record { cond = guard; node = node; entity = none }) desired))

unfoldable pub note_epochs : (ℕ → NodeView) → List ℕ → OrderedMap ℕ ℕ → OrderedMap ℕ ℕ
note_epochs view [] epochs = epochs
note_epochs view (node ∷ nodes) epochs =
    note_epochs view nodes (OrderedMap.insert node (view node).entity_epoch epochs)

-- The conditions that are attached.
unfoldable pub current_of : OrderedMap ℕ Attached → OrderedMap ℕ (Unit {0})
current_of [] = []
current_of ((id, att) ∷ m) = OrderedMap.insert att.cond tt (current_of m)

-- What is left when the stale attachments are erased.
unfoldable pub without_stale : Desired → OrderedMap ℕ Attached → OrderedMap ℕ Attached
without_stale desired [] = []
without_stale desired ((id, att) ∷ m) =
    let rest = without_stale desired m in
    if found (OrderedMap.find att.cond desired) then (id, att) ∷ rest else rest

-- The attachments and the last id that was given.
abbrev pub Attachments : Type 0
Attachments = OrderedMap ℕ Attached × ℕ

-- The last loop. `attaches` is the answer of dds_waitset_attach to a condition and an id.
unfoldable pub attach_missing :
    (ℕ → ℕ → Bool) → Desired → OrderedMap ℕ (Unit {0}) → Attachments → Attachments
attach_missing attaches [] current state = state
attach_missing attaches ((cond, att) ∷ desired) current (attached, last) =
    let id = last + 1 in
    let go_on = attach_missing attaches desired current (attached, last) in
    let skipped = attach_missing attaches desired current (attached, id) in
    let done =
      attach_missing attaches desired (OrderedMap.insert cond tt current)
        (OrderedMap.insert id att attached, id) in
    if found (OrderedMap.find cond current)
    then go_on
    else if attaches cond id
    then done
    else skipped

unfoldable pub has_node : ℕ → List ℕ → Bool
has_node node [] = false
has_node node (n ∷ ns) = let rest = has_node node ns in if n == node then true else rest

unfoldable pub without_node : ℕ → List ℕ → List ℕ
without_node node [] = []
without_node node (n ∷ ns) = let rest = without_node node ns in if n == node then rest else n ∷ rest

abbrev epoch_changed : Option ℕ → ℕ → Bool
epoch_changed none epoch = true
epoch_changed (some seen) epoch = not (seen == epoch)

-- The loop that looks for a node whose entities have changed.
unfoldable pub any_changed : (ℕ → NodeView) → List ℕ → OrderedMap ℕ ℕ → Bool
any_changed view [] epochs = false
any_changed view (node ∷ nodes) epochs =
    let rest = any_changed view nodes epochs in
    if epoch_changed (OrderedMap.find node epochs) (view node).entity_epoch then true else rest

abbrev empty {ℓ} : {A : Type ℓ} → List A → Bool
empty [] = true
empty (x ∷ xs) = false

module _ (view : ℕ → NodeView) (attaches : ℕ → ℕ → Bool) where
  unfoldable pub reconcile_locked : Executor → Executor
  reconcile_locked e =
      let desired = want view e.nodes [] in
      let state =
        attach_missing attaches desired (current_of e.attached)
          (without_stale desired e.attached, e.next_attach_id) in
      record e {
        attached = state.0;
        next_attach_id = state.1;
        node_epochs = note_epochs view e.nodes e.node_epochs;
      }

  unfoldable pub add_node : ℕ → Executor → Executor
  unfolding has_node reconcile_locked
  add_node node e = reconcile_locked (
      if has_node node e.nodes then e else record e {
        nodes = e.nodes ++ (node ∷ []);
        node_epochs = OrderedMap.erase node e.node_epochs;
      })

  unfoldable pub remove_node : ℕ → Executor → Executor
  unfolding without_node reconcile_locked
  remove_node node e = reconcile_locked (record e {
    nodes = without_node node e.nodes;
    node_epochs = OrderedMap.erase node e.node_epochs;
  })

  -- The first block of wait_and_process.
  unfoldable pub refresh : Executor → Executor
  unfolding any_changed reconcile_locked
  refresh e =
      if (empty e.attached && not (empty e.nodes)) || any_changed view e.nodes e.node_epochs
      then reconcile_locked e
      else e

-- One triggered attachment: whether a cancel was asked for, and the entity to dispatch.
unfoldable pub triggered : ℕ → Executor → Bool × Option ℕ
triggered id e =
    if id == 1
    then (true, none)
    else if id == 2
    then (false, none)
    else (false, elim (OrderedMap.find id e.attached) [ none ↦ none | some att ↦ att.entity ])

-- The loop over the triggered attachments: the entities that are dispatched, in order. An exception
-- of a dispatch is logged.
unfoldable pub process : List ℕ → Executor → Executor × List ℕ
unfolding triggered
process [] e = (e, [])
process (id ∷ ids) e =
    let (cancelled, entity) = triggered id e in
    let (e', dispatched) =
      process ids (record e { cancel_requested = e.cancel_requested || cancelled }) in
    (e', elim entity [ none ↦ dispatched | some x ↦ x ∷ dispatched ])
