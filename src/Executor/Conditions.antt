-- ===== src/Executor/Conditions.antt =====
-- The conditions of the nodes of an executor, as nodes and entities have them, and the desired set
-- that reconcile_locked of src/rcllite/executor.cpp collects of them.
use rcllite.Prelude.{
  ℕ, ◌≡◌, ◌↔◌, ◌⊎◌, arith, none, some, List, [], ◌∷◌, ◌==◌, ==_iff, Bool-cases, inl, inr,
}
use rcllite.Prelude.OrderedMap
use rcllite.Prelude.OrderedMap.{OrderedMap, number_key, find-insert}
use rcllite.Executor.Core.{NodeView, Attached, Desired, want_entities, want}
use rcllite.Executor.Reconcile.{IsWanted}

-- One of the list has the property.
abbrev pub Any {ℓ} : {A : Type ℓ} → (A → Type 0) → List A → Type 0
Any P [] = ⊥
Any P (x ∷ xs) = P x ⊎ Any P xs

-- A node has the condition of its change guard, and those of its entities.
abbrev pub HasCondition : (ℕ → NodeView) → ℕ → ℕ → Type 0
HasCondition view c node = ((view node).change_guard ≡ c) ⊎ Any (λ e. e.0 ≡ c) (view node).entities

IsWanted-insert :
    (cond c : ℕ) (att : Attached) (d : Desired)
    → IsWanted (OrderedMap.insert cond att d) c ↔ ((cond ≡ c) ⊎ IsWanted d c)
IsWanted-insert cond c att d = elim (Bool-cases (cond == c)) [
  | inl same ↦
      (λ h. inl ((==_iff cond c).0 same), λ h. ground (arith, find-insert cond c att d, same))
  | inr other ↦ (
    λ h. inr (ground (arith, find-insert cond c att d, other, h)),
    λ h. elim h [
      | inl e ↦ absurd (ground (arith, e, ==_iff cond c, other))
      | inr w ↦ ground (arith, find-insert cond c att d, other, w)
    ],
  )
]

want_entities_iff :
    (node c : ℕ) (es : List (ℕ × ℕ)) (d : Desired)
    → IsWanted (want_entities node es d) c ↔ (Any (λ e. e.0 ≡ c) es ⊎ IsWanted d c)
unfolding want_entities
want_entities_iff node c [] d = (λ h. inr h, λ h. elim h [ inl e ↦ elim e [ ] | inr w ↦ w ])
want_entities_iff node c ((cond, entity) ∷ es) d =
    let att : Attached = record { cond = cond; node = node; entity = some entity } in
    let rest = want_entities_iff node c es (OrderedMap.insert cond att d) in
    let one = IsWanted-insert cond c att d in
    (
      λ h. elim (rest.0 h) [
        | inl e ↦ inl (inr e)
        | inr w ↦ elim (one.0 w) [ inl e ↦ inl (inl e) | inr w' ↦ inr w' ]
      ],
      λ h. elim h [
        | inl (inl e) ↦ rest.1 (inr (one.1 (inl e)))
        | inl (inr e) ↦ rest.1 (inl e)
        | inr w ↦ rest.1 (inr (one.1 (inr w)))
      ],
    )

pub want_iff :
    (view : ℕ → NodeView) (c : ℕ) (nodes : List ℕ) (d : Desired)
    → IsWanted (want view nodes d) c ↔ (Any (HasCondition view c) nodes ⊎ IsWanted d c)
unfolding want
want_iff view c [] d = (λ h. inr h, λ h. elim h [ inl e ↦ elim e [ ] | inr w ↦ w ])
want_iff view c (node ∷ nodes) d =
    let guard : ℕ = (view node).change_guard in
    let att : Attached = record { cond = guard; node = node; entity = none } in
    let es : List (ℕ × ℕ) = (view node).entities in
    let rest = want_iff view c nodes (want_entities node es (OrderedMap.insert guard att d)) in
    let own = want_entities_iff node c es (OrderedMap.insert guard att d) in
    let one = IsWanted-insert guard c att d in
    (
      λ h. elim (rest.0 h) [
        | inl n ↦ inl (inr n)
        | inr w ↦ elim (own.0 w) [
          | inl e ↦ inl (inl (inr e))
          | inr g ↦ elim (one.0 g) [ inl e ↦ inl (inl (inl e)) | inr w' ↦ inr w' ]
        ]
      ],
      λ h. elim h [
        | inl (inl (inl e)) ↦ rest.1 (inr (own.1 (inr (one.1 (inl e)))))
        | inl (inl (inr e)) ↦ rest.1 (inr (own.1 (inl e)))
        | inl (inr n) ↦ rest.1 (inl n)
        | inr w ↦ rest.1 (inr (own.1 (inr (one.1 (inr w)))))
      ],
    )
