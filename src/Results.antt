-- ===== src/Results.antt =====
-- src/results.rs: grouped results.
pub mod Sorting
pub mod Stats
pub mod Summary
pub mod Fold
pub mod Counts
pub mod Groups
pub mod Page
pub mod Complete
