-- ===== src/Ffi/Opened.antt =====
-- What creating a publisher (src/ffi/rcllite_ffi.cpp) promises.
use rcllite.Prelude.{
  ℕ, ◌≡◌, ◌≢◌, refl, arith, Bool, none, some, List, [], ◌∷◌, Bytes, All, ◌==◌, Bool-cases, inl, inr,
  ltb, Result, ok, err, Ensures, Ensures-ok, Ensures-bind, Ensures-then,
}
use rcllite.Prelude.OrderedMap
use rcllite.Prelude.OrderedMap.{
  OrderedMap, number_key, All-insert, find-All, find-insert, same_refl,
}
use rcllite.Names.Maps.{dds_type_name, ros_to_dds_topic_name}
use rcllite.Dds.Qos.{Qos}
use rcllite.Ffi.Handles.{Under, EntryUnder, IsSound, Life, Life-IsSound}
use rcllite.Ffi.Given.{given, Below, given-Below}
use rcllite.Ffi.Endpoints.{with_pub, pub_create, find_pub}
use rcllite.Ffi.Registry.{PubEntry, NodeEntry, Registry, lookup, qos_from_args}

absent : {V : Type 0} (n : ℕ) (m : OrderedMap ℕ V) → Under n m → OrderedMap.find n m ≡ none
unfolding OrderedMap.find
absent n [] h = refl
absent n ((k, v) ∷ m) h = ground (arith, h.0, absent n m h.1)

no_pub : (n : ℕ) (m : OrderedMap ℕ NodeEntry) → All (EntryUnder n) m → find_pub n m ≡ none
unfolding find_pub
no_pub n [] h = refl
no_pub n ((k, entry) ∷ m) ((a, b, c), h) = rw (absent n entry.pubs b, find_pub) (no_pub n m h)

find_pub-insert :
    (n k : ℕ) (entry : NodeEntry) (p : PubEntry) (m : OrderedMap ℕ NodeEntry)
    → All (EntryUnder n) m
    → OrderedMap.find n entry.pubs ≡ some p
    → find_pub n (OrderedMap.insert k entry m) ≡ some p
unfolding find_pub OrderedMap.insert
find_pub-insert n k entry p [] h e = rw (e, find_pub) refl
find_pub-insert n k entry p ((j, other) ∷ m) ((a, b, c), h) e = elim (Bool-cases (j == k)) [
  | inl same ↦ rw (same, e, find_pub) refl
  | inr different ↦ elim (Bool-cases (ltb k j)) [
    | inl front ↦ rw (different, front, e, find_pub) refl
    | inr behind ↦
        rw (different, behind, absent n other.pubs b, find_pub) (find_pub-insert n k entry p m h e)
  ]
]

-- What a publisher that was created promises; `old` are the handles that were given before.
pub record IsOpened (topic type_name : Bytes) (g : Registry) (old : List ℕ) (r : Registry × ℕ)
    : Type 0 where
  pub dds_type : Bytes
  pub typed : dds_type_name type_name ≡ ok dds_type
  pub unused : find_pub r.1 g.entries ≡ none
  pub fresh : All (λ k. k ≢ r.1) old
  pub opened : find_pub r.1 r.0.entries ≡ some (record { topic = topic; type = dds_type })

apart : (n : ℕ) (ks : List ℕ) → Below n ks → All (λ k. k ≢ n) ks
apart n [] h = tt
apart n (k ∷ ks) h = (λ e. absurd (omega (arith, e, h.0)), apart n ks h.1)

with_pub-opened :
    (p : PubEntry) (k : ℕ) (entry : NodeEntry) (g : Registry)
    → IsSound g
    → find_pub g.next_handle (with_pub p k entry g).entries ≡ some p
with_pub-opened p k entry g s =
    find_pub-insert g.next_handle k
      (record entry { pubs = OrderedMap.insert g.next_handle p entry.pubs }) p g.entries s.allocated
      (rw (find-insert g.next_handle g.next_handle p entry.pubs, same_refl g.next_handle) refl)

result-eq : {A : Type 0} (m : Result A) → Ensures (λ a. m ≡ ok a) m
result-eq (ok a) = Ensures-ok a refl
result-eq (err e) = record { holds = λ a p. cc }

module _ (opens : Bytes → Bytes → Qos → Result (Unit {0})) (k : ℕ) (topic type_name : Bytes)
    (depth : ℕ) (reliable transient_local : Bool) where
  pub_create-IsOpened :
      (g : Registry) (old : List ℕ)
      → IsSound g
      → Below g.next_handle old
      → Ensures
          (IsOpened topic type_name g old)
          (pub_create opens k topic type_name depth reliable transient_local g)
  unfolding pub_create
  pub_create-IsOpened g old s below =
      Ensures-then (dds_type_name type_name) (result-eq (dds_type_name type_name)) λ dds_type typed.
        Ensures-bind (lookup k g) λ entry. Ensures-bind (ros_to_dds_topic_name topic) λ dds_topic.
          Ensures-bind (opens dds_topic dds_type (qos_from_args depth reliable transient_local))
            λ opened. Ensures-ok _ (record {
              dds_type = dds_type;
              typed = typed;
              unused = no_pub g.next_handle g.entries s.allocated;
              fresh = apart g.next_handle old below;
              opened = with_pub-opened (record { topic = topic; type = dds_type }) k entry g s;
            })

  -- However the registry has come about, a publisher whose creation succeeds gets a handle that
  -- no call has given before, to a node, a publisher or a subscription, whether it is still in
  -- use or not; under it the registry found no publisher, and finds one of the topic with the
  -- DDS name of the type.
  pub Life-IsOpened :
      (g : Registry) (r : Registry × ℕ) (l : Life g)
      → pub_create opens k topic type_name depth reliable transient_local g ≡ ok r
      → IsOpened topic type_name g (given l) r
  Life-IsOpened g r l e =
      (pub_create-IsOpened g (given l) (Life-IsSound l) (given-Below l)).holds r e
