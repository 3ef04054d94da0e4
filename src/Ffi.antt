-- ===== src/Ffi.antt =====
-- src/ffi/rcllite_ffi.cpp: the Python bindings.
pub mod Registry
pub mod Endpoints
pub mod Handles
pub mod Given
pub mod Opened
pub mod Graphs
pub mod Spinning
pub mod Race
pub mod Outlives
mod Tests
mod RaceTests
