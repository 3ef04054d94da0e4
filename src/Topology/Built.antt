-- ===== src/Topology/Built.antt =====
-- What the constructor of GraphExecutor::Impl in src/rcllite/graph_executor.cpp has built when it
-- returns.
use rcllite.Topology.Host.{Host}
