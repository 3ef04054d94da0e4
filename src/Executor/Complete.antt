-- ===== src/Executor/Complete.antt =====
-- What reconcile_locked of src/rcllite/executor.cpp leaves attached, and the conditions of the nodes.
use rcllite.Prelude.{
  ℕ, ◌+◌, ◌≤◌, ◌<◌, ◌≡◌, ◌↔◌, ◌⊎◌, refl, sym, subst, arith, Bool, true, false, ◌||◌, [], ◌∷◌, All,
  ◌==◌, ==_iff, Bool-cases, inl, inr,
}
use rcllite.Prelude.OrderedMap
use rcllite.Prelude.OrderedMap.{OrderedMap, number_key, All-insert, find-insert, same_refl}
use rcllite.Names.Search.{found}
use rcllite.Executor.Core.{
  NodeView, Attached, Desired, Executor, want, current_of, without_stale, attach_missing,
  reconcile_locked,
}
use rcllite.Executor.Conditions.{Any, HasCondition, want_iff}
use rcllite.Executor.Reconcile.{IsWanted, OfWanted, Keyed, want-Keyed, reconciled-OfWanted}

-- One of the attachments is of the condition.
unfoldable pub has_cond : ℕ → OrderedMap ℕ Attached → Bool
has_cond c [] = false
has_cond c ((id, att) ∷ m) = let rest = has_cond c m in att.cond == c || rest

-- No attachment has an id that was not given.
abbrev pub Given : ℕ → OrderedMap ℕ Attached → Type 0
Given last = All (λ e. e.0 ≤ last)

has_cond-insert :
    (c id : ℕ) (att : Attached) (m : OrderedMap ℕ Attached)
    → All (λ e. e.0 < id) m
    → has_cond c (OrderedMap.insert id att m) ≡ (att.cond == c || has_cond c m)
unfolding has_cond OrderedMap.insert
has_cond-insert c id att [] h = refl
has_cond-insert c id att ((j, w) ∷ m) h = ground (arith, h.0, has_cond-insert c id att m h.1)

below : (last : ℕ) (m : OrderedMap ℕ Attached) → Given last m → All (λ e. e.0 < last + 1) m
below last [] h = tt
below last (e ∷ m) h = (omega (arith, h.0), below last m h.1)

raised : (last : ℕ) (m : OrderedMap ℕ Attached) → Given last m → Given (last + 1) m
raised last [] h = tt
raised last (e ∷ m) h = (omega (arith, h.0), raised last m h.1)

Given-insert :
    (last : ℕ) (att : Attached) (m : OrderedMap ℕ Attached)
    → Given last m
    → Given (last + 1) (OrderedMap.insert (last + 1) att m)
Given-insert last att m h =
    All-insert (λ e. e.0 ≤ last + 1) (last + 1) att m (omega arith) (raised last m h)

without_stale-Given :
    (last : ℕ) (desired : Desired) (m : OrderedMap ℕ Attached)
    → Given last m
    → Given last (without_stale desired m)
unfolding without_stale
without_stale-Given last desired [] h = tt
without_stale-Given last desired ((id, att) ∷ m) h =
    elim (Bool-cases (found (OrderedMap.find att.cond desired))) [
      | inl wanted ↦ rw wanted (h.0, without_stale-Given last desired m h.1)
      | inr stale ↦ rw stale (without_stale-Given last desired m h.1)
    ]

-- What was attached and is wanted stays attached.
stays :
    (desired : Desired) (m : OrderedMap ℕ Attached) (c : ℕ)
    → IsWanted desired c
    → found (OrderedMap.find c (current_of m)) ≡ true
    → has_cond c (without_stale desired m) ≡ true
unfolding current_of without_stale has_cond
stays desired [] c w h = absurd (unfold OrderedMap.find in ground (arith, h))
stays desired ((id, att) ∷ m) c w h = elim (Bool-cases (att.cond == c)) [
  | inl same ↦
      rw (subst (IsWanted desired) (sym ((==_iff att.cond c).0 same)) w, has_cond, same) refl
  | inr other ↦
      let rest =
        stays desired m c w (ground (arith, h, find-insert att.cond c tt (current_of m), other)) in
      elim (Bool-cases (found (OrderedMap.find att.cond desired))) [
        | inl wanted ↦ rw (wanted, has_cond, rest) (ground arith)
        | inr stale ↦ rw (stale, has_cond, rest) refl
      ]
]

module _ (desired : Desired) (attaches : ℕ → ℕ → Bool)
    (accepts : (c id : ℕ) → attaches c id ≡ true) where
  missing_ones :
      (todo : Desired) (current : OrderedMap ℕ (Unit {0})) (attached : OrderedMap ℕ Attached)
      (last : ℕ)
      → All Keyed todo
      → Given last attached
      → ((c : ℕ)
          → IsWanted desired c
          → found (OrderedMap.find c current) ≡ true
          → has_cond c attached ≡ true)
      → (c : ℕ) → IsWanted desired c
      → (found (OrderedMap.find c current) ≡ true) ⊎ (found (OrderedMap.find c todo) ≡ true)
      → has_cond c (attach_missing attaches todo current (attached, last)).0 ≡ true
  unfolding attach_missing OrderedMap.find
  missing_ones [] current attached last k g inv c w (inl h) = inv c w h
  missing_ones [] current attached last k g inv c w (inr h) = absurd (ground (arith, h))
  missing_ones ((cond, att) ∷ todo) current attached last k g inv c w h =
      elim (Bool-cases (found (OrderedMap.find cond current))) [
        | inl there ↦
            rw there (missing_ones todo current attached last k.1 g inv c w (was_there there h))
        | inr missing ↦
            rw (missing, accepts cond (last + 1))
              (missing_ones todo (OrderedMap.insert cond tt current)
                (OrderedMap.insert (last + 1) att attached) (last + 1) k.1
                (Given-insert last att attached g) inv' c w (is_new h))
      ]
    where
      was_there :
          found (OrderedMap.find cond current) ≡ true
          → (found (OrderedMap.find c current) ≡ true)
            ⊎ (found (OrderedMap.find c ((cond, att) ∷ todo)) ≡ true)
          → (found (OrderedMap.find c current) ≡ true) ⊎ (found (OrderedMap.find c todo) ≡ true)
      was_there t (inl a) = inl a
      was_there t (inr b) = elim (Bool-cases (cond == c)) [
        | inl same ↦
            inl (subst (λ x. found (OrderedMap.find x current) ≡ true) ((==_iff cond c).0 same) t)
        | inr other ↦ inr (rw other at b)
      ]

      is_new :
          (found (OrderedMap.find c current) ≡ true)
            ⊎ (found (OrderedMap.find c ((cond, att) ∷ todo)) ≡ true)
          → (found (OrderedMap.find c (OrderedMap.insert cond tt current)) ≡ true)
            ⊎ (found (OrderedMap.find c todo) ≡ true)
      is_new (inl a) = inl (ground (arith, a, find-insert cond c tt current))
      is_new (inr b) = elim (Bool-cases (cond == c)) [
        | inl same ↦ inl (ground (arith, find-insert cond c tt current, same))
        | inr other ↦ inr (rw other at b)
      ]

      inv' :
          (d : ℕ)
          → IsWanted desired d
          → found (OrderedMap.find d (OrderedMap.insert cond tt current)) ≡ true
          → has_cond d (OrderedMap.insert (last + 1) att attached) ≡ true
      inv' d v f = elim (Bool-cases (cond == d)) [
        | inl same ↦ ground (
          arith,
          has_cond-insert d (last + 1) att attached (below last attached g),
          k.0,
          same,
          ==_iff cond d,
        )
        | inr other ↦ ground (
          arith,
          has_cond-insert d (last + 1) att attached (below last attached g),
          inv d v (ground (arith, f, find-insert cond d tt current, other)),
        )
      ]

attached-IsWanted :
    (desired : Desired) (m : OrderedMap ℕ Attached) (c : ℕ)
    → All (OfWanted desired) m
    → has_cond c m ≡ true
    → IsWanted desired c
unfolding has_cond
attached-IsWanted desired [] c a h = absurd (ground (arith, h))
attached-IsWanted desired ((id, att) ∷ m) c a h = elim (Bool-cases (att.cond == c)) [
  | inl same ↦ subst (IsWanted desired) ((==_iff att.cond c).0 same) a.0
  | inr other ↦ attached-IsWanted desired m c a.1 (rw other at h)
]

-- Where no attachment has an id that was not given and the waitset accepts every condition:
-- after a reconciliation exactly these conditions are attached: of each node of the executor
-- that of its change guard, and those of its entities.
pub reconcile_locked_iff :
    (view : ℕ → NodeView) (attaches : ℕ → ℕ → Bool)
    → ((c id : ℕ) → attaches c id ≡ true)
    → (e : Executor) → Given e.next_attach_id e.attached
    → (c : ℕ)
    → (has_cond c (reconcile_locked view attaches e).attached ≡ true)
      ↔ Any (HasCondition view c) e.nodes
unfolding reconcile_locked
reconcile_locked_iff view attaches accepts e g c =
    let desired = want view e.nodes [] in
    (
      λ h.
          elim ((want_iff view c e.nodes []).0
            (attached-IsWanted desired _ c (reconciled-OfWanted view attaches e) h)) [
              | inl n ↦ n
              | inr w ↦ absurd (unfold OrderedMap.find in ground (arith, w))
            ],
      λ n.
          let w = (want_iff view c e.nodes []).1 (inl n) in
          missing_ones desired attaches accepts desired (current_of e.attached)
            (without_stale desired e.attached) e.next_attach_id (want-Keyed view e.nodes [] tt)
            (without_stale-Given e.next_attach_id desired e.attached g) (stays desired e.attached) c
            w (inr w),
    )
