-- ===== src/Names.antt =====
-- src/rcllite/names.cpp: from ROS 2 names to DDS names.
pub mod Search
pub mod Maps
pub mod Tokens
pub mod Valid
pub mod Apart
pub mod Join
pub mod Types
mod Tests
