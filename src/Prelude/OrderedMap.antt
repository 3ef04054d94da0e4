-- ===== src/Prelude/OrderedMap.antt =====
-- std::map: an association list in the order of its keys. The order is the key's `before`, and two
-- keys are one where `same` says so.
use Prim.Native.Nat.{ℕ}
use rcllite.Prelude.Tests.{if◌then◌else◌, ◌==◌, ltb, ==_iff, Bool-cases}
use rcllite.Prelude.Lists.{All}
use mathlib.Core.Path.{◌≡◌, refl, subst}
use mathlib.Core.Logic.{◌↔◌, inl, inr}
use mathlib.Core.Bool.{Bool, true, false}
use mathlib.Core.Option.{Option, none, some}
use mathlib.Core.List.{List, [], ◌∷◌}
use native.Mathlib.Omega.{arith}
use rcllite.Prelude.Text.{Bytes, same_text, same_text_iff, text_before}

pub record Key (K : Type 0) : Type 0 where
  pub same : K → K → Bool
  pub before : K → K → Bool
  pub same_iff : (a b : K) → (same a b ≡ true) ↔ (a ≡ b)

abbrev pub OrderedMap : Type 0 → Type 0 → Type 0
OrderedMap K V = List (K × V)

module _ {K V : Type 0} ⦃key : Key K⦄ where
  -- find
  unfoldable pub find : K → OrderedMap K V → Option V
  find k [] = none
  find k ((j, v) ∷ m) = if key.same j k then some v else find k m

  -- m[k] = v
  unfoldable pub insert : K → V → OrderedMap K V → OrderedMap K V
  insert k v [] = (k, v) ∷ []
  insert k v ((j, w) ∷ m) =
      if key.same j k
      then (k, v) ∷ m
      else elim (key.before k j) [ true ↦ (k, v) ∷ (j, w) ∷ m | false ↦ (j, w) ∷ insert k v m ]

  -- erase
  unfoldable pub erase : K → OrderedMap K V → OrderedMap K V
  erase k [] = []
  erase k ((j, w) ∷ m) = let rest = erase k m in if key.same j k then rest else (j, w) ∷ rest

  pub find-insert :
      (k j : K) (v : V) (m : OrderedMap K V)
      → find j (insert k v m) ≡ (if key.same k j then some v else find j m)
  unfolding find insert
  find-insert k j v [] = refl
  find-insert k j v ((i, w) ∷ m) =
      ground (arith, key.same_iff i k, key.same_iff i j, key.same_iff k j, find-insert k j v m)

  pub find-erase :
      (k j : K) (m : OrderedMap K V)
      → find j (erase k m) ≡ (if key.same k j then none else find j m)
  unfolding find erase
  find-erase k j [] = ground arith
  find-erase k j ((i, w) ∷ m) =
      ground (arith, key.same_iff i k, key.same_iff i j, key.same_iff k j, find-erase k j m)

pub same_refl : {K : Type 0} ⦃key : Key K⦄ (k : K) → key.same k k ≡ true
same_refl ⦃key⦄ k = (key.same_iff k k).1 refl

-- Maps with a std::string for a key.
instance abbrev pub text_key : Key Bytes
text_key = record { same = same_text; before = text_before; same_iff = same_text_iff }

-- Maps with a number for a key.
instance abbrev pub number_key : Key ℕ
number_key = record { same = ◌==◌; before = ltb; same_iff = ==_iff }

module _ {K V : Type 0} ⦃key : Key K⦄ (Q : K × V → Type 0) where
  -- What holds of all entries holds of them after an insertion.
  pub All-insert : (k : K) (v : V) (m : OrderedMap K V) → Q (k, v) → All Q m → All Q (insert k v m)
  unfolding insert
  All-insert k v [] q h = (q, tt)
  All-insert k v ((j, w) ∷ m) q h = elim (Bool-cases (key.same j k)) [
    | inl same ↦ rw same (q, h.1)
    | inr other ↦ elim (Bool-cases (key.before k j)) [
      | inl front ↦ rw (other, front) (q, h)
      | inr behind ↦ rw (other, behind) (h.0, All-insert k v m q h.1)
    ]
  ]

  pub find-All : (k : K) (v : V) (m : OrderedMap K V) → All Q m → find k m ≡ some v → Q (k, v)
  unfolding find
  find-All k v [] h e = absurd (ground (arith, e))
  find-All k v ((j, w) ∷ m) h e = elim (Bool-cases (key.same j k)) [
    | inl same ↦ subst Q (found_here ((key.same_iff j k).0 same) (rw same at e)) h.0
    | inr other ↦ find-All k v m h.1 (rw other at e)
  ]
    where
      found_here : j ≡ k → some w ≡ some v → ◌≡◌ {A = K × V} (j, w) (k, v)
      found_here p q = cc
