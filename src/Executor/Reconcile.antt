-- ===== src/Executor/Reconcile.antt =====
-- What reconcile_locked of src/rcllite/executor.cpp leaves attached.
use rcllite.Prelude.{
  ℕ, ◌+◌, ◌≡◌, refl, sym, subst, arith, Bool, true, none, some, List, [], ◌∷◌, All, Bool-cases, inl,
  inr,
}
use rcllite.Prelude.OrderedMap
use rcllite.Prelude.OrderedMap.{
  OrderedMap, number_key, All-insert, find-All, find-insert, same_refl,
}
use rcllite.Names.Search.{found}
use rcllite.Executor.Core.{
  NodeView, Attached, Desired, Executor, want_entities, want, current_of, without_stale,
  attach_missing, reconcile_locked,
}

-- A condition that the nodes have.
abbrev pub IsWanted : Desired → ℕ → Type 0
IsWanted desired cond = found (OrderedMap.find cond desired) ≡ true

abbrev pub OfWanted : Desired → ℕ × Attached → Type 0
OfWanted desired entry = IsWanted desired entry.1.cond

abbrev pub Keyed : ℕ × Attached → Type 0
Keyed entry = entry.1.cond ≡ entry.0

want_entities-Keyed :
    (node : ℕ) (es : List (ℕ × ℕ)) (d : Desired) → All Keyed d → All Keyed (want_entities node es d)
unfolding want_entities
want_entities-Keyed node [] d h = h
want_entities-Keyed node ((cond, entity) ∷ es) d h =
    want_entities-Keyed node es _
      (All-insert Keyed cond (record { cond = cond; node = node; entity = some entity }) d refl h)

pub want-Keyed :
    (view : ℕ → NodeView) (nodes : List ℕ) (d : Desired)
    → All Keyed d
    → All Keyed (want view nodes d)
unfolding want
want-Keyed view [] d h = h
want-Keyed view (node ∷ nodes) d h = want-Keyed view nodes _ (
    want_entities-Keyed node (view node).entities _ (
      All-insert Keyed (view node).change_guard
        (record { cond = (view node).change_guard; node = node; entity = none }) d refl h))

All-imp :
    {A : Type 0} (P Q : A → Type 0) (xs : List A) → ((x : A) → P x → Q x) → All P xs → All Q xs
All-imp P Q [] f h = tt
All-imp P Q (x ∷ xs) f h = (f x h.0, All-imp P Q xs f h.1)

self_found : (m : Desired) → All (λ e. IsWanted m e.0) m
unfolding OrderedMap.find
self_found [] = tt
self_found ((k, v) ∷ m) = (
  ground (arith, same_refl k),
  All-imp (λ e. IsWanted m e.0) (λ e. IsWanted ((k, v) ∷ m) e.0) m (λ e h. further e.0 h)
      (self_found m),
)
  where
    further : (c : ℕ) → IsWanted m c → IsWanted ((k, v) ∷ m) c
    further c h = ground (arith, h)

without_stale-OfWanted :
    (desired : Desired) (m : OrderedMap ℕ Attached)
    → All (OfWanted desired) (without_stale desired m)
unfolding without_stale
without_stale-OfWanted desired [] = tt
without_stale-OfWanted desired ((id, att) ∷ m) =
    elim (Bool-cases (found (OrderedMap.find att.cond desired))) [
      | inl wanted ↦ rw wanted (wanted, without_stale-OfWanted desired m)
      | inr stale ↦ rw stale (without_stale-OfWanted desired m)
    ]

Keyed-OfWanted : (d m : Desired) → All Keyed m → All (λ x. IsWanted d x.0) m → All (OfWanted d) m
Keyed-OfWanted d [] a b = tt
Keyed-OfWanted d (x ∷ m) a b = (subst (IsWanted d) (sym a.0) b.0, Keyed-OfWanted d m a.1 b.1)

attach_missing-OfWanted :
    (desired : Desired) (attaches : ℕ → ℕ → Bool) (todo : Desired)
    (current : OrderedMap ℕ (Unit {0})) (attached : OrderedMap ℕ Attached) (last : ℕ)
    → All (OfWanted desired) todo
    → All (OfWanted desired) attached
    → All (OfWanted desired) (attach_missing attaches todo current (attached, last)).0
unfolding attach_missing
attach_missing-OfWanted desired attaches [] current attached last t h = h
attach_missing-OfWanted desired attaches ((cond, att) ∷ todo) current attached last t h =
    elim (Bool-cases (found (OrderedMap.find cond current))) [
      | inl there ↦
          rw there (attach_missing-OfWanted desired attaches todo current attached last t.1 h)
      | inr missing ↦ elim (Bool-cases (attaches cond (last + 1))) [
        | inl accepted ↦
            rw (missing, accepted)
              (attach_missing-OfWanted desired attaches todo (OrderedMap.insert cond tt current)
                (OrderedMap.insert (last + 1) att attached) (last + 1) t.1
                (All-insert (OfWanted desired) (last + 1) att attached t.0 h))
        | inr refused ↦
            rw (missing, refused)
              (attach_missing-OfWanted desired attaches todo current attached (last + 1) t.1 h)
      ]
    ]

-- After a reconciliation every attachment is of a condition that a node of the executor has.
pub reconciled-OfWanted :
    (view : ℕ → NodeView) (attaches : ℕ → ℕ → Bool) (e : Executor)
    → All (OfWanted (want view e.nodes [])) (reconcile_locked view attaches e).attached
unfolding reconcile_locked
reconciled-OfWanted view attaches e =
    let desired = want view e.nodes [] in
    attach_missing-OfWanted desired attaches desired (current_of e.attached)
      (without_stale desired e.attached) e.next_attach_id
      (Keyed-OfWanted desired desired (want-Keyed view e.nodes [] tt) (self_found desired))
      (without_stale-OfWanted desired e.attached)
