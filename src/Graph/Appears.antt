-- ===== src/Graph/Appears.antt =====
-- A node on its way into the graph: the constructor of class Node (src/rcllite/node.cpp) announces
-- it, and the monitor (src/rcllite/graph.cpp) hears of it.
use rcllite.Prelude.{Option}
use mathlib.Core.Option
use rcllite.Prelude.OrderedMap.{text_key}
use rcllite.Message.{Message}
use rcllite.Node.{Node}
use rcllite.Graph.Snapshot.{Snapshot}
