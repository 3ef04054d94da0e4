-- ===== src/Topology/Spin.antt =====
-- GraphExecutor::spin, spin_once and cancel of src/rcllite/graph_executor.cpp, which pass on to the
-- executor that the graph executor holds.
use rcllite.Prelude.{ℕ, Bool, Option, Result}
use rcllite.Executor.Core.{Executor}
use rcllite.Executor.Spin.{Waiting, spin, spin_once, cancel}
use rcllite.Topology.State.{GraphExecutor}

module _ {W : Type 0} (waiting : Waiting W) where
  abbrev on_executor :
      {A : Type 0}
      → (W × Executor → (W × Executor) × A)
      → W × GraphExecutor
      → (W × GraphExecutor) × A
  on_executor member (w, g) =
      let ((w', e), r) = member (w, g.executor) in ((w', record g { executor = e }), r)

  unfoldable pub spin_graph :
      ℕ → W × GraphExecutor → (W × GraphExecutor) × Option (Result (Unit {0}))
  spin_graph fuel = on_executor (spin waiting fuel)

  unfoldable pub spin_graph_once : Option ℕ → W × GraphExecutor → (W × GraphExecutor) × Result Bool
  spin_graph_once timeout = on_executor (spin_once waiting timeout)

  unfoldable pub cancel_graph : W × GraphExecutor → W × GraphExecutor
  cancel_graph s = (on_executor (λ e. (cancel waiting e, tt {0})) s).0
