-- ===== src/Topology.antt =====
-- src/rcllite/graph_executor.cpp: nodes with their endpoints from a JSON topology.
pub mod JsonLib
pub mod Payload
pub mod Hex
pub mod Settings
pub mod State
pub mod Host
pub mod Build
pub mod Publish
pub mod Counts
pub mod Built
pub mod Spin
pub mod Status
pub mod Reader
pub mod ReadBack
mod Tests
mod BuildTests
