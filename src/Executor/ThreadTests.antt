-- ===== src/Executor/ThreadTests.antt =====
-- Runs of src/rcllite/executor.cpp in two threads, and an executor that cannot be set up.
use rcllite.Prelude.{ℕ, suc, ◌≡◌, ◌≢◌, refl, arith, Bool, false, [], ◌==◌}
use rcllite.Dds.Calls.{create_waitset, waitset_attach, Cyclone, value, failed}
use rcllite.Executor.Threads.{
  Wait, Threads, begin, returned, before_cancel, here, spins, cancels, spin_on, spin_step,
  cancel_step,
}
use rcllite.Executor.Woken.{cancel_not_lost, returned_only_cancelled}
use rcllite.Executor.Construct.{construct_executor}
use rcllite.Executor.Alive.{TellsApart, executor_scope, live_waitsets, construct_executor_leaks}

-- Nothing but the guard is triggered.
abbrev quiet : Wait
quiet = record { others = 0; reported = false }

-- cancel() runs whole before spin() resets the flag.
abbrev cancelled_first : Threads
cancelled_first = cancel_step (cancel_step (begin false false))

cancel_not_lost_example : (spin_on 6 (λ n. quiet) cancelled_first).spinner ≡ returned
unfolding cancel_step
cancel_not_lost_example =
    cancel_not_lost false false cancelled_first (λ n. quiet) (cancels (cancels here)) refl
      (λ n. omega arith)

-- spin() waits, cancel() comes, spin() returns.
abbrev woken : Threads
woken = spin_step quiet (
    spin_step quiet (
      spin_step quiet (
        spin_step quiet
          (cancel_step (cancel_step (spin_step quiet (spin_step quiet (begin false false))))))))

returned_only_cancelled_example : woken.canceller ≢ before_cancel
unfolding spin_step cancel_step
returned_only_cancelled_example =
    returned_only_cancelled false woken
      (spins quiet (
        spins quiet
          (spins quiet (spins quiet (cancels (cancels (spins quiet (spins quiet here))))))))
      refl

-- Waitsets are number 1, all other handles 2, and nothing is attached.
abbrev attaches_none : Cyclone
attaches_none trace (waitset_attach ws e x) = failed
attaches_none trace create_waitset = value 1
attaches_none trace c = value 2

abbrev is_one : ℕ → Bool
is_one h = h == 1

handle_is : {a b : ℕ} → value a ≡ value b → a ≡ b
handle_is e = cc

attaches_none-apart : TellsApart attaches_none is_one
attaches_none-apart = record {
  waitset = λ trace h e. ground (arith, handle_is e);
  guard = λ trace h e. ground (arith, handle_is e);
}

construct_executor_leaks_example :
    live_waitsets attaches_none is_one (executor_scope (construct_executor attaches_none []))
    ≡ suc (live_waitsets attaches_none is_one [])
construct_executor_leaks_example =
    construct_executor_leaks attaches_none is_one attaches_none-apart [] (λ before. refl)
      (λ before. refl) (λ before ws e x. refl)
