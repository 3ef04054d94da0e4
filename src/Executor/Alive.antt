-- ===== src/Executor/Alive.antt =====
-- The waitsets that the constructor and the destructor of class Executor (src/rcllite/executor.cpp)
-- leave alive in CycloneDDS.
use rcllite.Prelude.{
  ℕ, suc, ◌-◌, ◌≡◌, arith, Bool, true, false, Option, [], ◌∷◌, Result, ok, err, if◌then◌else◌,
}
use rcllite.Dds.Calls.{
  create_waitset, create_guardcondition, waitset_attach, delete, value, Trace, Cyclone,
}
use rcllite.Dds.Entities.{make_guard, delete_guard}
use rcllite.Dds.Alive.{answered_ok}
use rcllite.Executor.Construct.{
  ExecutorOwner, attach_all, construct_waitset, construct_executor, delete_executor,
}

-- An executor at the end of its scope: its destructor runs where its constructor returned.
unfoldable pub executor_scope : Trace × Result ExecutorOwner → Trace
unfolding delete_executor
executor_scope (trace, ok e) = (delete_executor e trace).0
executor_scope (trace, err x) = trace

-- The number of waitsets that are alive; `is_waitset` tells their handles from others.
unfoldable pub live_waitsets : Cyclone → (ℕ → Bool) → Trace → ℕ
live_waitsets cyclone is_waitset [] = 0
live_waitsets cyclone is_waitset (create_waitset ∷ trace) =
    let before = live_waitsets cyclone is_waitset trace in
    if answered_ok (cyclone trace create_waitset) then suc before else before
live_waitsets cyclone is_waitset (delete h ∷ trace) =
    let before = live_waitsets cyclone is_waitset trace in
    if is_waitset h then before - 1 else before
live_waitsets cyclone is_waitset (_ ∷ trace) = live_waitsets cyclone is_waitset trace

-- What CycloneDDS documents of handles: those of waitsets and of guard conditions differ.
pub record TellsApart (cyclone : Cyclone) (is_waitset : ℕ → Bool) : Type 0 where
  pub waitset :
      (trace : Trace) (h : ℕ) → cyclone trace create_waitset ≡ value h → is_waitset h ≡ true
  pub guard :
      (trace : Trace) (h : ℕ) → cyclone trace create_guardcondition ≡ value h → is_waitset h ≡ false

module _ (cyclone : Cyclone) (is_waitset : ℕ → Bool) (apart : TellsApart cyclone is_waitset) where
  -- On a CycloneDDS whose waitsets, and no guard conditions, have the numbers of waitsets, and
  -- that accepts every attachment, an executor that is made and deleted, or whose constructor
  -- throws, leaves as many waitsets alive as before.
  executor_scope-live_waitsets :
      (trace : Trace)
      → ((before : Trace) (ws : ℕ) (e : Option ℕ) (x : ℕ)
          → answered_ok (cyclone before (waitset_attach ws e x)) ≡ true)
      → live_waitsets cyclone is_waitset (executor_scope (construct_executor cyclone trace))
        ≡ live_waitsets cyclone is_waitset trace
  unfolding construct_executor construct_waitset attach_all delete_executor executor_scope
      make_guard delete_guard live_waitsets
  executor_scope-live_waitsets trace attaches = grind (arith, apart.waitset, apart.guard)

  -- On a CycloneDDS whose waitsets, and no guard conditions, have the numbers of waitsets, and
  -- that makes both and accepts no attachment, an attempt to make an executor leaves one more
  -- waitset alive than before.
  pub construct_executor_leaks :
      (trace : Trace)
      → ((before : Trace) → answered_ok (cyclone before create_waitset) ≡ true)
      → ((before : Trace) → answered_ok (cyclone before create_guardcondition) ≡ true)
      → ((before : Trace) (ws : ℕ) (e : Option ℕ) (x : ℕ)
          → answered_ok (cyclone before (waitset_attach ws e x)) ≡ false)
      → live_waitsets cyclone is_waitset (executor_scope (construct_executor cyclone trace))
        ≡ suc (live_waitsets cyclone is_waitset trace)
  unfolding construct_executor construct_waitset attach_all delete_executor executor_scope
      make_guard delete_guard live_waitsets
  construct_executor_leaks trace makes guards refuses = grind (arith, apart.waitset, apart.guard)
