-- ===== src/Executor/Threads.antt =====
-- Executor::spin of src/rcllite/executor.cpp in one thread and Executor::cancel in another. The shared
-- state is the flag cancel_requested_ and the guard condition; each access is one step.
use rcllite.Prelude.{ℕ, zero, suc, Bool, true, false, ◌||◌, ltb, if◌then◌else◌}

-- Where the spinning thread stands: at the reset of the flag, at the test of the loop, in
-- dds_waitset_wait, in front of cancel_guard_.take(), in front of `cancel_requested_ = true`, or
-- behind spin.
pub data Spinner : Type 0 where
  resetting testing waiting taking noting returned : Spinner

-- In front of cancel, between its two statements, or behind it.
pub data Canceller : Type 0 where
  before_cancel requested finished : Canceller

pub record Threads : Type 0 where
  pub cancel_requested : Bool
  pub guard : Bool
  pub spinner : Spinner
  pub canceller : Canceller

abbrev pub begin : Bool → Bool → Threads
begin flag guard = record {
  cancel_requested = flag;
  guard = guard;
  spinner = resetting;
  canceller = before_cancel;
}

-- MAX_TRIGGERS
abbrev pub max_triggers : ℕ
max_triggers = 64

-- What a wait finds besides the guard: how many other conditions are triggered, and whether a guard
-- that is triggered too is among the `max_triggers` that are reported where not all fit.
pub record Wait : Type 0 where
  pub others : ℕ
  pub reported : Bool

-- The wait ends when something is triggered. A guard that is not reported stays triggered.
abbrev awake : Bool → Wait → Spinner
awake true w = if ltb w.others max_triggers || w.reported then taking else testing
awake false w = if ltb 0 w.others then testing else waiting

-- The next access of the spinning thread.
unfoldable pub spin_step : Wait → Threads → Threads
spin_step w s = elim s.spinner [
  | resetting ↦ record s { cancel_requested = false; spinner = testing }
  | testing ↦ record s { spinner = if s.cancel_requested then returned else waiting }
  | waiting ↦ record s { spinner = awake s.guard w }
  | taking ↦ record s { guard = false; spinner = noting }
  | noting ↦ record s { cancel_requested = true; spinner = testing }
  | returned ↦ s
]

unfoldable pub cancel_step : Threads → Threads
cancel_step s = elim s.canceller [
  | before_cancel ↦ record s { cancel_requested = true; canceller = requested }
  | requested ↦ record s { guard = true; canceller = finished }
  | finished ↦ s
]

pub data Reach (s : Threads) : Threads → Type 0 where
  here : Reach s s
  spins : {t : Threads} (w : Wait) → Reach s t → Reach s (spin_step w t)
  cancels : {t : Threads} → Reach s t → Reach s (cancel_step t)

-- `rounds` accesses of the spinning thread; `waits` says what its waits find.
unfoldable pub spin_on : ℕ → (ℕ → Wait) → Threads → Threads
spin_on zero waits s = s
spin_on (suc rounds) waits s = spin_on rounds waits (spin_step (waits rounds) s)
