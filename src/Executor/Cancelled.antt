-- ===== src/Executor/Cancelled.antt =====
-- When spin of src/rcllite/executor.cpp ends.
use rcllite.Prelude.{
  ℕ, zero, suc, ◌≡◌, refl, ap, ◌∙◌, arith, Bool, true, false, ◌==◌, Option, none, some, List, [],
  ◌∷◌, Result, ok, err, Error, inl, inr, Bool-cases, if◌then◌else◌,
}
use rcllite.Executor.Core.{Executor, has_node, process, triggered}
use rcllite.Executor.Spin.{Waiting, wait_and_process, spin_loop, spin}

-- A cancel that was asked for stays.
process-keeps :
    (ids : List ℕ) (e : Executor)
    → e.cancel_requested ≡ true
    → (process ids e).0.cancel_requested ≡ true
unfolding process
process-keeps [] e h = h
process-keeps (id ∷ ids) e h = process-keeps ids _ (rw h)

-- The attachment 1 among those that are triggered asks for a cancel.
process-cancels :
    (ids : List ℕ) (e : Executor)
    → has_node 1 ids ≡ true
    → (process ids e).0.cancel_requested ≡ true
unfolding process has_node triggered
process-cancels [] e h = absurd (ground (arith, h))
process-cancels (id ∷ ids) e h = elim (Bool-cases (id == 1)) [
  | inl cancel ↦ process-keeps ids _ (ground (arith, cancel))
  | inr other ↦ process-cancels ids _ (rw other at h)
]

-- What stands behind a round that neither ends the loop nor throws.
goes_on :
    {A : Type 0} (stop : Bool) (r : Result Bool) {b : Bool} (x y : A) (z : Error → A)
    → stop ≡ false
    → r ≡ ok b
    → (if stop then x else elim r [ ok did_work ↦ y | err e ↦ z e ]) ≡ y
goes_on stop r x y z h k = rw (h, k)

module _ {W : Type 0} (waiting : Waiting W) where
  -- The state after `k` rounds.
  unfoldable pub rounds : ℕ → W × Executor → W × Executor
  rounds zero s = s
  rounds (suc k) s = rounds k (wait_and_process waiting none s).0

  spin_loop-ends :
      ((s : W × Executor) → (b : Bool) × ((wait_and_process waiting none s).1 ≡ ok b))
      → (k : ℕ) (s : W × Executor) → (rounds k s).1.cancel_requested ≡ true
      → (spin_loop waiting (suc k) s).1 ≡ some (ok tt)
  unfolding spin_loop rounds
  spin_loop-ends plain zero s h = rw h
  spin_loop-ends plain (suc k) s h = elim (Bool-cases s.1.cancel_requested) [
    | inl now ↦ rw now
    | inr not_yet ↦
        let (b, e) = plain s in
        ap {A = (W × Executor) × Option (Result (Unit {0}))} (λ out. out.1)
          (goes_on s.1.cancel_requested (wait_and_process waiting none s).1 _ _ _ not_yet e)
        ∙ spin_loop-ends plain k (wait_and_process waiting none s).0 h
  ]

  -- A round whose wait gives `ids`.
  round_ok :
      (s : W × Executor) (ids : List ℕ)
      → (waiting.wait none s.0).1 ≡ some ids
      → (b : Bool) × ((wait_and_process waiting none s).1 ≡ ok b)
  unfolding wait_and_process
  round_ok s [] e = rw e (false, refl)
  round_ok s (id ∷ ids) e = rw e (_, refl)

  round_cancels :
      (s : W × Executor) (ids : List ℕ)
      → (waiting.wait none s.0).1 ≡ some ids
      → has_node 1 ids ≡ true
      → (wait_and_process waiting none s).0.1.cancel_requested ≡ true
  unfolding wait_and_process has_node
  round_cancels s [] e h = absurd (ground (arith, h))
  round_cancels s (id ∷ ids) e h = rw e (process-cancels (id ∷ ids) _ h)

  rounds-suc :
      (k : ℕ) (s : W × Executor) → rounds (suc k) s ≡ (wait_and_process waiting none (rounds k s)).0
  unfolding rounds
  rounds-suc zero s = refl
  rounds-suc (suc k) s = rounds-suc k (wait_and_process waiting none s).0

  -- If no wait fails, and the cancel guard is among what is triggered behind `k` rounds, spin
  -- returns within `k + 2` rounds.
  pub spin_cancelled :
      ((w : W) → (ids : List ℕ) × ((waiting.wait none w).1 ≡ some ids))
      → (k : ℕ) (w : W) (e : Executor) (ids : List ℕ)
      → (waiting.wait none (rounds k (w, record e { cancel_requested = false })).0).1 ≡ some ids
      → has_node 1 ids ≡ true
      → (spin waiting (suc (suc k)) (w, e)).1 ≡ some (ok tt)
  unfolding spin
  spin_cancelled waits k w e ids said h =
      spin_loop-ends (λ s. round_ok s (waits s.0).0 (waits s.0).1) (suc k) first
        (ap (λ s. s.1.cancel_requested) (rounds-suc k first)
          ∙ round_cancels (rounds k first) ids said h)
    where
      first : W × Executor
      first = (w, record e { cancel_requested = false })
