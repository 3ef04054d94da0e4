-- ===== src/Ffi/Spinning.antt =====
-- The members of src/ffi/rcllite_ffi.cpp that spin and cancel by handle. The executors of the nodes
-- stand beside their registry, under the same handles.
use rcllite.Prelude.{ℕ, ◌*◌, ◌^◌, Bool, Option, none, some, Result, ok, err}
use mathlib.Core.Option
use rcllite.Prelude.OrderedMap
use rcllite.Prelude.OrderedMap.{OrderedMap, number_key}
use rcllite.Executor.Core.{Executor}
use rcllite.Executor.Spin.{Waiting, spin, spin_once, cancel}
use rcllite.Topology.State.{GraphExecutor}
use rcllite.Topology.Spin.{spin_graph, spin_graph_once, cancel_graph}
use rcllite.Ffi.Registry.{unknown_node}
use rcllite.Ffi.Graphs.{unknown_executor}

-- `none` is a negative number of milliseconds.
abbrev nanoseconds : Option ℕ → Option ℕ
nanoseconds timeout_ms = Option.map (λ ms. ms * 10 ^ 6) timeout_ms

module _ {W : Type 0} (waiting : Waiting W) where
  abbrev on_node :
      {A : Type 0}
      → (W × Executor → (W × Executor) × A)
      → A
      → ℕ
      → W × OrderedMap ℕ Executor
      → (W × OrderedMap ℕ Executor) × A
  on_node member lost handle (w, m) = elim (OrderedMap.find handle m) [
    | none ↦ ((w, m), lost)
    | some e ↦ let ((w', e'), r) = member (w, e) in ((w', OrderedMap.insert handle e' m), r)
  ]

  unfoldable pub node_spin :
      ℕ → ℕ → W × OrderedMap ℕ Executor → (W × OrderedMap ℕ Executor) × Option (Result (Unit {0}))
  node_spin fuel handle = on_node (spin waiting fuel) (some (err (unknown_node handle))) handle

  unfoldable pub node_spin_once :
      ℕ → Option ℕ → W × OrderedMap ℕ Executor → (W × OrderedMap ℕ Executor) × Result Bool
  node_spin_once handle timeout_ms =
      on_node (spin_once waiting (nanoseconds timeout_ms)) (err (unknown_node handle)) handle

  unfoldable pub node_cancel :
      ℕ → W × OrderedMap ℕ Executor → (W × OrderedMap ℕ Executor) × Result (Unit {0})
  node_cancel handle = on_node (λ s. (cancel waiting s, ok tt)) (err (unknown_node handle)) handle

  -- The same for a graph executor.
  abbrev on_graph :
      {A : Type 0}
      → (W × GraphExecutor → (W × GraphExecutor) × A)
      → A
      → ℕ
      → W × OrderedMap ℕ GraphExecutor
      → (W × OrderedMap ℕ GraphExecutor) × A
  on_graph member lost handle (w, m) = elim (OrderedMap.find handle m) [
    | none ↦ ((w, m), lost)
    | some g ↦ let ((w', g'), r) = member (w, g) in ((w', OrderedMap.insert handle g' m), r)
  ]

  unfoldable pub graph_exec_spin :
      ℕ
      → ℕ
      → W × OrderedMap ℕ GraphExecutor
      → (W × OrderedMap ℕ GraphExecutor) × Option (Result (Unit {0}))
  graph_exec_spin fuel handle =
      on_graph (spin_graph waiting fuel) (some (err (unknown_executor handle))) handle

  unfoldable pub graph_exec_spin_once :
      ℕ → Option ℕ → W × OrderedMap ℕ GraphExecutor → (W × OrderedMap ℕ GraphExecutor) × Result Bool
  graph_exec_spin_once handle timeout_ms =
      on_graph (spin_graph_once waiting (nanoseconds timeout_ms)) (err (unknown_executor handle))
        handle

  unfoldable pub graph_exec_cancel :
      ℕ → W × OrderedMap ℕ GraphExecutor → (W × OrderedMap ℕ GraphExecutor) × Result (Unit {0})
  graph_exec_cancel handle =
      on_graph (λ s. (cancel_graph waiting s, ok tt)) (err (unknown_executor handle)) handle
