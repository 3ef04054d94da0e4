-- ===== src/Executor.antt =====
-- src/rcllite/executor.cpp: the executor.
pub mod Construct
pub mod Core
pub mod Alive
pub mod Spin
pub mod Cancelled
pub mod Threads
pub mod Woken
pub mod Reconcile
pub mod Conditions
pub mod Complete
mod Tests
mod ThreadTests
