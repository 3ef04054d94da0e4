-- ===== src/Ffi/Handles.antt =====
-- The life of the registry of src/ffi/rcllite_ffi.cpp, and where the handles in use stand.
use rcllite.Prelude.{
  ℕ, ◌+◌, ◌<◌, ◌≡◌, refl, arith, Bool, some, [], ◌∷◌, Bytes, All, ◌==◌, Bool-cases, Option-cases,
  inl, inr, Result, ok, Ensures, Ensures-ok, Ensures-bind, Ensures-then,
}
use rcllite.Prelude.OrderedMap
use rcllite.Prelude.OrderedMap.{
  OrderedMap, number_key, All-insert, find-All, find-insert, same_refl,
}
use rcllite.Names.Maps.{dds_type_name, ros_to_dds_topic_name}
use rcllite.Dds.Qos.{Qos}
use rcllite.Node.{new_node}
use rcllite.Ffi.Endpoints.{
  with_pub, with_sub, pub_create, sub_create, erase_pub, pub_destroy, erase_sub, sub_destroy,
}
use rcllite.Ffi.Registry.{
  PubEntry, SubEntry, NodeEntry, Registry, lookup, node_create, node_destroy, qos_from_args,
}

-- A map whose keys are below a bound.
abbrev pub Under : {V : Type 0} → ℕ → OrderedMap ℕ V → Type 0
Under n = All (λ e. e.0 < n)

abbrev pub EntryUnder : ℕ → ℕ × NodeEntry → Type 0
EntryUnder n e = (e.0 < n) × Under n e.1.pubs × Under n e.1.subs

-- Every handle in use is below the next one.
pub record IsSound (g : Registry) : Type 0 where
  pub allocated : All (EntryUnder g.next_handle) g.entries

raise : {V : Type 0} (n : ℕ) (m : OrderedMap ℕ V) → Under n m → Under (n + 1) m
raise n [] h = tt
raise n (e ∷ m) h = (omega (arith, h.0), raise n m h.1)

raise_entries :
    (n : ℕ) (m : OrderedMap ℕ NodeEntry) → All (EntryUnder n) m → All (EntryUnder (n + 1)) m
raise_entries n [] h = tt
raise_entries n (e ∷ m) ((a, b, c), h) =
    ((omega (arith, a), raise n e.1.pubs b, raise n e.1.subs c), raise_entries n m h)

erase-All :
    {V : Type 0} (Q : ℕ × V → Type 0) (k : ℕ) (m : OrderedMap ℕ V)
    → All Q m
    → All Q (OrderedMap.erase k m)
unfolding OrderedMap.erase
erase-All Q k [] h = tt
erase-All Q k ((j, v) ∷ m) h = elim (Bool-cases (j == k)) [
  | inl same ↦ rw same (erase-All Q k m h.1)
  | inr other ↦ rw other (h.0, erase-All Q k m h.1)
]

node_create-IsSound :
    (participant : Bytes → Result (Unit {0})) (name namespace : Bytes) (g : Registry)
    → IsSound g
    → Ensures (λ r. IsSound r.0) (node_create participant name namespace g)
unfolding node_create
node_create-IsSound participant name namespace g s =
    Ensures-bind (new_node participant name namespace) λ node. Ensures-ok _ (record {
      allocated =
          All-insert (EntryUnder (g.next_handle + 1)) g.next_handle
            (record { node = node; pubs = []; subs = [] }) g.entries (omega arith, tt, tt)
            (raise_entries g.next_handle g.entries s.allocated);
    })

node_destroy-IsSound : (handle : ℕ) (g : Registry) → IsSound g → IsSound (node_destroy handle g).0
unfolding node_destroy
node_destroy-IsSound handle g s = elim (Option-cases (OrderedMap.find handle g.entries)) [
  | inl e ↦ rw (e, node_destroy) s
  | inr (entry, e) ↦
      rw (e, node_destroy) (record { allocated = erase-All _ handle g.entries s.allocated })
]

with_pub-IsSound :
    (p : PubEntry) (k : ℕ) (entry : NodeEntry) (g : Registry)
    → IsSound g
    → OrderedMap.find k g.entries ≡ some entry
    → IsSound (with_pub p k entry g)
with_pub-IsSound p k entry g s e =
    let (a, b, c) = find-All (EntryUnder g.next_handle) k entry g.entries s.allocated e in
    record {
      allocated =
          All-insert (EntryUnder (g.next_handle + 1)) k _ g.entries
            (
              omega (arith, a),
              All-insert (λ x. x.0 < g.next_handle + 1) g.next_handle p entry.pubs (omega arith)
                  (raise g.next_handle entry.pubs b),
              raise g.next_handle entry.subs c,
            )
            (raise_entries g.next_handle g.entries s.allocated);
    }

with_sub-IsSound :
    (sub : SubEntry) (k : ℕ) (entry : NodeEntry) (g : Registry)
    → IsSound g
    → OrderedMap.find k g.entries ≡ some entry
    → IsSound (with_sub sub k entry g)
with_sub-IsSound sub k entry g s e =
    let (a, b, c) = find-All (EntryUnder g.next_handle) k entry g.entries s.allocated e in
    record {
      allocated =
          All-insert (EntryUnder (g.next_handle + 1)) k _ g.entries
            (
              omega (arith, a),
              raise g.next_handle entry.pubs b,
              All-insert (λ x. x.0 < g.next_handle + 1) g.next_handle sub entry.subs (omega arith)
                  (raise g.next_handle entry.subs c),
            )
            (raise_entries g.next_handle g.entries s.allocated);
    }

pub lookup-found :
    (k : ℕ) (g : Registry)
    → Ensures (λ entry. OrderedMap.find k g.entries ≡ some entry) (lookup k g)
unfolding lookup
lookup-found k g = elim (Option-cases (OrderedMap.find k g.entries)) [
  | inl e ↦ rw (e, lookup) (record { holds = λ a p. cc })
  | inr (entry, e) ↦ rw (e, lookup) (Ensures-ok entry refl)
]

module _ (opens : Bytes → Bytes → Qos → Result (Unit {0})) (k : ℕ) (topic type_name : Bytes)
    (depth : ℕ) (reliable transient_local : Bool) where
  pub_create-IsSound :
      (g : Registry)
      → IsSound g
      → Ensures
          (λ r. IsSound r.0)
          (pub_create opens k topic type_name depth reliable transient_local g)
  unfolding pub_create
  pub_create-IsSound g s = Ensures-bind (dds_type_name type_name) λ dds_type.
      Ensures-then (lookup k g) (lookup-found k g) λ entry e.
        Ensures-bind (ros_to_dds_topic_name topic) λ dds_topic.
          Ensures-bind (opens dds_topic dds_type (qos_from_args depth reliable transient_local))
            λ opened. Ensures-ok _ (with_pub-IsSound _ k entry g s e)

  sub_create-IsSound :
      (callback : ℕ) (g : Registry)
      → IsSound g
      → Ensures
          (λ r. IsSound r.0)
          (sub_create opens k topic type_name depth reliable transient_local callback g)
  unfolding sub_create
  sub_create-IsSound callback g s = Ensures-bind (dds_type_name type_name) λ dds_type.
      Ensures-then (lookup k g) (lookup-found k g) λ entry e.
        Ensures-bind (ros_to_dds_topic_name topic) λ dds_topic.
          Ensures-bind (opens dds_topic dds_type (qos_from_args depth reliable transient_local))
            λ opened. Ensures-ok _ (with_sub-IsSound _ k entry g s e)

erase_pub-Under :
    (n handle : ℕ) (m : OrderedMap ℕ NodeEntry)
    → All (EntryUnder n) m
    → All (EntryUnder n) (erase_pub handle m)
unfolding erase_pub
erase_pub-Under n handle [] h = tt
erase_pub-Under n handle ((k, entry) ∷ m) ((a, b, c), h) =
    elim (Option-cases (OrderedMap.find handle entry.pubs)) [
      | inl e ↦ rw (e, erase_pub) ((a, b, c), erase_pub-Under n handle m h)
      | inr (p, e) ↦ rw (e, erase_pub) ((a, erase-All _ handle entry.pubs b, c), h)
    ]

erase_sub-Under :
    (n handle : ℕ) (m : OrderedMap ℕ NodeEntry)
    → All (EntryUnder n) m
    → All (EntryUnder n) (erase_sub handle m).0
unfolding erase_sub
erase_sub-Under n handle [] h = tt
erase_sub-Under n handle ((k, entry) ∷ m) ((a, b, c), h) =
    elim (Option-cases (OrderedMap.find handle entry.subs)) [
      | inl e ↦ rw (e, erase_sub) ((a, b, c), erase_sub-Under n handle m h)
      | inr (p, e) ↦ rw (e, erase_sub) ((a, b, erase-All _ handle entry.subs c), h)
    ]

-- The life of the registry: every call that changes it, in any order. A call that throws leaves it
-- as it was.
pub data Life : Registry → Type 0 where
  born : Life (record { entries = []; next_handle = 1 })
  creates_node :
      (participant : Bytes → Result (Unit {0})) (name namespace : Bytes) (g g' : Registry) (h : ℕ)
      → Life g
      → node_create participant name namespace g ≡ ok (g', h)
      → Life g'
  destroys_node : (handle : ℕ) (g : Registry) → Life g → Life (node_destroy handle g).0
  creates_pub :
      (opens : Bytes → Bytes → Qos → Result (Unit {0})) (k : ℕ) (topic type_name : Bytes)
      (depth : ℕ) (reliable transient_local : Bool) (g g' : Registry) (h : ℕ)
      → Life g
      → pub_create opens k topic type_name depth reliable transient_local g ≡ ok (g', h)
      → Life g'
  destroys_pub : (handle : ℕ) (g : Registry) → Life g → Life (pub_destroy handle g)
  creates_sub :
      (opens : Bytes → Bytes → Qos → Result (Unit {0})) (k : ℕ) (topic type_name : Bytes)
      (depth : ℕ) (reliable transient_local : Bool) (callback : ℕ) (g g' : Registry) (h : ℕ)
      → Life g
      → sub_create opens k topic type_name depth reliable transient_local callback g ≡ ok (g', h)
      → Life g'
  destroys_sub : (handle : ℕ) (g : Registry) → Life g → Life (sub_destroy handle g).0

pub Life-IsSound : {g : Registry} → Life g → IsSound g
unfolding pub_destroy sub_destroy
Life-IsSound born = record { allocated = tt }
Life-IsSound (creates_node participant name namespace g g' h l e) =
    (node_create-IsSound participant name namespace g (Life-IsSound l)).holds (g', h) e
Life-IsSound (destroys_node handle g l) = node_destroy-IsSound handle g (Life-IsSound l)
Life-IsSound (creates_pub opens k topic type_name depth r t g g' h l e) =
    (pub_create-IsSound opens k topic type_name depth r t g (Life-IsSound l)).holds (g', h) e
Life-IsSound (destroys_pub handle g l) = record {
  allocated = erase_pub-Under g.next_handle handle g.entries (Life-IsSound l).allocated;
}
Life-IsSound (creates_sub opens k topic type_name depth r t callback g g' h l e) =
    (sub_create-IsSound opens k topic type_name depth r t callback g (Life-IsSound l)).holds (g', h)
      e
Life-IsSound (destroys_sub handle g l) = record {
  allocated = erase_sub-Under g.next_handle handle g.entries (Life-IsSound l).allocated;
}
