-- ===== src/Examples.antt =====
-- examples: the programs that the repository brings.
pub mod Pipeline
mod Sums
mod Invariant
mod Added
mod Newest
mod Counted
pub mod Verdict
mod Tests
