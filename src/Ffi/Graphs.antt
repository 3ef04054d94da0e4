-- ===== src/Ffi/Graphs.antt =====
-- The graph monitor and the graph executors of src/ffi/rcllite_ffi.cpp. A graph executor stands by
-- what it holds; its spinning is the executor's. The counter is an int64_t that is taken to stay in
-- range.
use rcllite.Prelude.{
  ℕ, ◌+◌, Option, none, some, List, [], ◌∷◌, Bytes, Result, ok, err, Error, value_error,
}
use rcllite.Prelude.OrderedMap
use rcllite.Prelude.OrderedMap.{OrderedMap, number_key}
use rcllite.Json.Escape.{decimal}
use rcllite.Graph.State.{Monitor}
use rcllite.Graph.Snapshot.{snapshot_json}
use rcllite.Dds.Calls.{Io, ◌>>=◌, return}
use rcllite.Topology.State.{GraphExecutor}
use rcllite.Topology.Host.{Host}
use rcllite.Topology.Build.{build}
use rcllite.Topology.Publish.{start_publishing}
use rcllite.Topology.Status.{status_json, registered_nodes_json}

-- g_graph; `make` is what the constructor of GraphMonitor makes.
unfoldable pub graph_start : Monitor → Option Monitor → Option Monitor
graph_start make (some m) = some m
graph_start make none = some make

unfoldable pub graph_stop : Option Monitor → Option Monitor
graph_stop g = none

unfoldable pub graph_snapshot : Option Monitor → Result Bytes
graph_snapshot none = err (value_error "graph monitor not started" [])
graph_snapshot (some m) = snapshot_json m

-- g_graph_execs and g_next_graph_exec.
pub record GraphExecs : Type 0 where
  pub execs : OrderedMap ℕ GraphExecutor
  pub next : ℕ

abbrev pub unknown_executor : ℕ → Error
unknown_executor handle = value_error "unknown graph executor handle: {}" (decimal handle ∷ [])

-- The constructor of GraphExecutor: the topology, and the first publishing.
unfoldable pub new_graph_executor : {Json : Type 0} → Host Json → Bytes → Io GraphExecutor
new_graph_executor host json_topology = do
  g ← build host json_topology
  nodes ← start_publishing host.cyclone host.bits g.nodes
  return (record g { nodes = nodes })

unfoldable pub graph_exec_create :
    {Json : Type 0} → Host Json → Bytes → GraphExecs → Io (GraphExecs × ℕ)
unfolding new_graph_executor
graph_exec_create host json_topology g = do
  executor ← new_graph_executor host json_topology
  return (record { execs = OrderedMap.insert g.next executor g.execs; next = g.next + 1 }, g.next)

unfoldable pub graph_exec_lookup : ℕ → GraphExecs → Result GraphExecutor
graph_exec_lookup handle g = elim (OrderedMap.find handle g.execs) [
  | none ↦ err (unknown_executor handle)
  | some executor ↦ ok executor
]

unfoldable pub graph_exec_status : ℕ → GraphExecs → Result Bytes
graph_exec_status handle g = elim (graph_exec_lookup handle g) [
  | ok executor ↦ ok (status_json executor.nodes)
  | err e ↦ err e
]

unfoldable pub graph_exec_registered_nodes : List Bytes → Bytes
graph_exec_registered_nodes registered = registered_nodes_json registered

-- What is taken out of the registry, if anything, is destroyed.
unfoldable pub graph_exec_destroy : ℕ → GraphExecs → GraphExecs × Option GraphExecutor
graph_exec_destroy handle g = elim (OrderedMap.find handle g.execs) [
  | none ↦ (g, none)
  | some executor ↦ (record g { execs = OrderedMap.erase handle g.execs }, some executor)
]
