-- ===== src/Ffi/Given.antt =====
-- The handles that the calls of src/ffi/rcllite_ffi.cpp give over the life of the registry, and the
-- counter that they come from.
use rcllite.Prelude.{
  ℕ, ◌+◌, ◌<◌, ◌≡◌, refl, arith, Bool, List, [], ◌∷◌, Bytes, All, Option-cases, inl, inr, Result,
  Ensures, Ensures-ok, Ensures-bind,
}
use rcllite.Prelude.OrderedMap
use rcllite.Prelude.OrderedMap.{OrderedMap, number_key}
use rcllite.Names.Maps.{dds_type_name, ros_to_dds_topic_name}
use rcllite.Dds.Qos.{Qos}
use rcllite.Node.{new_node}
use rcllite.Ffi.Endpoints.{pub_create, sub_create, pub_destroy, sub_destroy}
use rcllite.Ffi.Registry.{Registry, lookup, node_create, node_destroy, qos_from_args}
use rcllite.Ffi.Handles.{
  Life, born, creates_node, destroys_node, creates_pub, destroys_pub, creates_sub, destroys_sub,
}

-- The handles that the calls have given, to nodes, publishers and subscriptions, the last in front.
unfoldable pub given : {g : Registry} → Life g → List ℕ
given born = []
given (creates_node participant name namespace g g' h l e) = h ∷ given l
given (destroys_node handle g l) = given l
given (creates_pub opens k topic type_name depth r t g g' h l e) = h ∷ given l
given (destroys_pub handle g l) = given l
given (creates_sub opens k topic type_name depth r t callback g g' h l e) = h ∷ given l
given (destroys_sub handle g l) = given l

-- A call that gives a handle gives the counter, and counts on.
pub record Takes (g : Registry) (r : Registry × ℕ) : Type 0 where
  pub handle : r.1 ≡ g.next_handle
  pub counter : r.0.next_handle ≡ g.next_handle + 1

node_create-Takes :
    (participant : Bytes → Result (Unit {0})) (name namespace : Bytes) (g : Registry)
    → Ensures (Takes g) (node_create participant name namespace g)
unfolding node_create
node_create-Takes participant name namespace g =
    Ensures-bind (new_node participant name namespace)
      λ node. Ensures-ok _ (record { handle = refl; counter = refl })

module _ (opens : Bytes → Bytes → Qos → Result (Unit {0})) (k : ℕ) (topic type_name : Bytes)
    (depth : ℕ) (reliable transient_local : Bool) (g : Registry) where
  pub pub_create-Takes :
      Ensures (Takes g) (pub_create opens k topic type_name depth reliable transient_local g)
  unfolding pub_create
  pub_create-Takes = Ensures-bind (dds_type_name type_name) λ dds_type.
      Ensures-bind (lookup k g) λ entry. Ensures-bind (ros_to_dds_topic_name topic) λ dds_topic.
        Ensures-bind (opens dds_topic dds_type (qos_from_args depth reliable transient_local))
          λ opened. Ensures-ok _ (record { handle = refl; counter = refl })

  sub_create-Takes :
      (callback : ℕ)
      → Ensures
          (Takes g)
          (sub_create opens k topic type_name depth reliable transient_local callback g)
  unfolding sub_create
  sub_create-Takes callback = Ensures-bind (dds_type_name type_name) λ dds_type.
      Ensures-bind (lookup k g) λ entry. Ensures-bind (ros_to_dds_topic_name topic) λ dds_topic.
        Ensures-bind (opens dds_topic dds_type (qos_from_args depth reliable transient_local))
          λ opened. Ensures-ok _ (record { handle = refl; counter = refl })

node_destroy-next_handle :
    (handle : ℕ) (g : Registry) → (node_destroy handle g).0.next_handle ≡ g.next_handle
unfolding node_destroy
node_destroy-next_handle handle g = elim (Option-cases (OrderedMap.find handle g.entries)) [
  | inl e ↦ rw (e, node_destroy) refl
  | inr (entry, e) ↦ rw (e, node_destroy) refl
]

-- All were below the counter when they were given.
abbrev pub Below : ℕ → List ℕ → Type 0
Below n = All (λ k. k < n)

Below-same : (a b : ℕ) (ks : List ℕ) → b ≡ a → Below a ks → Below b ks
Below-same a b ks e h = rw e h

Below-next : (a b h : ℕ) (ks : List ℕ) → h ≡ a → b ≡ a + 1 → Below a ks → Below b (h ∷ ks)
Below-next a b h ks e f below = (omega (arith, e, f), raised ks below)
  where
    raised : (ks : List ℕ) → Below a ks → Below b ks
    raised [] u = tt
    raised (j ∷ ks) u = (omega (arith, f, u.0), raised ks u.1)

pub given-Below : {g : Registry} (l : Life g) → Below g.next_handle (given l)
unfolding given pub_destroy sub_destroy
given-Below born = tt
given-Below (creates_node participant name namespace g g' h l e) =
    let t = (node_create-Takes participant name namespace g).holds (g', h) e in
    Below-next g.next_handle g'.next_handle h (given l) t.handle t.counter (given-Below l)
given-Below (destroys_node handle g l) =
    Below-same g.next_handle _ (given l) (node_destroy-next_handle handle g) (given-Below l)
given-Below (creates_pub opens k topic type_name depth r t g g' h l e) =
    let c = (pub_create-Takes opens k topic type_name depth r t g).holds (g', h) e in
    Below-next g.next_handle g'.next_handle h (given l) c.handle c.counter (given-Below l)
given-Below (destroys_pub handle g l) = given-Below l
given-Below (creates_sub opens k topic type_name depth r t callback g g' h l e) =
    let c = (sub_create-Takes opens k topic type_name depth r t g callback).holds (g', h) e in
    Below-next g.next_handle g'.next_handle h (given l) c.handle c.counter (given-Below l)
given-Below (destroys_sub handle g l) = given-Below l
