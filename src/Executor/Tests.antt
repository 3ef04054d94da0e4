-- ===== src/Executor/Tests.antt =====
-- Runs of src/rcllite/executor.cpp, and its theorem at a concrete executor.
use rcllite.Prelude.{
  ℕ, ◌≡◌, ◌↔◌, ◌+◌, ◌==◌, if◌then◌else◌, refl, arith, true, none, some, ok, [], ◌∷◌,
}
use rcllite.Prelude.OrderedMap
use rcllite.Executor.Core.{
  has_node, NodeView, Executor, new_executor, add_node, reconcile_locked, want, process,
  attach_missing, current_of, without_stale,
}
use rcllite.Executor.Spin.{Waiting, wait_and_process, spin}
use rcllite.Executor.Cancelled.{rounds, spin_cancelled}
use rcllite.Executor.Conditions.{Any, HasCondition}
use rcllite.Executor.Complete.{has_cond, reconcile_locked_iff}

-- Every node has one entity.
abbrev one_entity : ℕ → NodeView
one_entity node = record { change_guard = node; entities = (70, 7) ∷ []; entity_epoch = 1 }

abbrev attached_node : Executor
attached_node = record new_executor {
  nodes = 5 ∷ [];
  attached = (3, record { cond = 9; node = 5; entity = none }) ∷ [];
  next_attach_id = 3;
}

reconcile_locked_iff_example :
    (has_cond 70 (reconcile_locked one_entity (λ c id. true) attached_node).attached ≡ true)
    ↔ Any (HasCondition one_entity 70) (5 ∷ [])
reconcile_locked_iff_example =
    reconcile_locked_iff one_entity (λ c id. true) (λ c id. refl) attached_node (omega arith) 70

-- The entity of a node that was added is dispatched.
dispatched : (process (4 ∷ []) (add_node one_entity (λ c id. true) 5 new_executor)).1 ≡ 7 ∷ []
unfolding process add_node new_executor want OrderedMap.insert OrderedMap.find attach_missing
    current_of without_stale
dispatched = refl

-- A world in which the cancel guard is triggered in the second round; its state is the round.
abbrev second_round : Waiting ℕ
second_round = record {
  view = λ w. one_entity;
  attaches = λ c id. true;
  wait = λ timeout w. (w + 1, some ((if w == 1 then 1 else 2) ∷ []));
  run = λ dispatched w. w;
  trigger_cancel = λ w. w;
}

spin_cancelled_example : (spin second_round 3 (0, new_executor)).1 ≡ some (ok tt)
unfolding rounds wait_and_process has_node
spin_cancelled_example =
    spin_cancelled second_round (λ w. (_, refl)) 1 0 new_executor (1 ∷ []) refl refl
