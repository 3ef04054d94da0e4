-- ===== src/Executor/Spin.antt =====
-- wait_and_process, spin, spin_once, spin_some and cancel of src/rcllite/executor.cpp. The world
-- outside is a state: what the nodes show, what dds_waitset_wait answers, and what a dispatch does.
use rcllite.Prelude.{
  ℕ, zero, suc, Bool, true, false, Option, none, some, List, [], ◌∷◌, Result, ok, err, Error,
  internal_error, if◌then◌else◌,
}
use rcllite.Executor.Core.{Executor, NodeView, refresh, process, new_executor, add_node}

-- dds_waitset_wait: `none` is an infinite timeout; the answer is the triggered attachments, or none
-- at an error.
pub record Waiting (W : Type 0) : Type 0 where
  pub view : W → ℕ → NodeView
  pub attaches : ℕ → ℕ → Bool
  pub wait : Option ℕ → W → W × Option (List ℕ)
  -- The dispatches of a round, in order, and the taking of the guards.
  pub run : List ℕ → W → W
  -- cancel_guard_.trigger()
  pub trigger_cancel : W → W

abbrev pub wait_failed : Error
wait_failed = internal_error "dds_waitset_wait failed: {}" []

abbrev pub any_work : List ℕ → Bool
any_work [] = false
any_work (d ∷ ds) = true

module _ {W : Type 0} (waiting : Waiting W) where
  -- The rest of a round, behind the wait.
  abbrev processed : W → Option (List ℕ) → Executor → (W × Executor) × Result Bool
  processed w none e = ((w, e), err wait_failed)
  processed w (some []) e = ((w, e), ok false)
  processed w (some (id ∷ ids)) e =
      let (e', dispatched) = process (id ∷ ids) e in
      ((waiting.run dispatched w, e'), ok (any_work dispatched))

  unfoldable pub wait_and_process : Option ℕ → W × Executor → (W × Executor) × Result Bool
  unfolding refresh process
  wait_and_process timeout (w, e) =
      let (w', triggered) = waiting.wait timeout w in
      processed w' triggered (refresh (waiting.view w) waiting.attaches e)

  -- `none` in the place of nanoseconds is a negative timeout.
  unfoldable pub spin_once : Option ℕ → W × Executor → (W × Executor) × Result Bool
  unfolding wait_and_process
  spin_once timeout s = wait_and_process timeout s

  -- The loop of spin within `fuel` rounds; no result is a loop that goes on.
  unfoldable pub spin_loop : ℕ → W × Executor → (W × Executor) × Option (Result (Unit {0}))
  spin_loop zero s = (s, none)
  spin_loop (suc fuel) s =
      let round = wait_and_process none s in
      let rest = spin_loop fuel round.0 in
      if s.1.cancel_requested
      then (s, some (ok tt))
      else elim round.1 [ ok did_work ↦ rest | err e ↦ (round.0, some (err e)) ]

  unfoldable pub spin : ℕ → W × Executor → (W × Executor) × Option (Result (Unit {0}))
  spin fuel (w, e) = spin_loop fuel (w, record e { cancel_requested = false })

  -- The loop of spin_some, with what it has done so far.
  unfoldable pub spin_some : ℕ → Bool → W × Executor → (W × Executor) × Option (Result Bool)
  spin_some zero did_work s = (s, none)
  spin_some (suc fuel) did_work s =
      let round = wait_and_process (some 0) s in
      let rest = spin_some fuel true round.0 in
      elim round.1 [
        | ok true ↦ rest
        | ok false ↦ (round.0, some (ok did_work))
        | err e ↦ (round.0, some (err e))
      ]

  unfoldable pub cancel : W × Executor → W × Executor
  cancel (w, e) = (waiting.trigger_cancel w, record e { cancel_requested = true })

  -- rcl::spin(node)
  unfoldable pub spin_node : ℕ → ℕ → W → (W × Executor) × Option (Result (Unit {0}))
  spin_node fuel node w =
      spin fuel (w, add_node (waiting.view w) waiting.attaches node new_executor)
