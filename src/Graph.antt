-- ===== src/Graph.antt =====
-- src/rcllite/graph.cpp: the monitor that watches the ROS graph.
pub mod State
pub mod Construct
pub mod Silent
pub mod Poll
pub mod Resolve
pub mod Topics
pub mod Snapshot
pub mod Flows
pub mod Listed
pub mod Complete
pub mod Edges
pub mod Known
pub mod Appears
pub mod Bounds
pub mod Departed
mod Tests
mod AppearsTests
