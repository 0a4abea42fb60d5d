-- ===== src/RunsWrite.antt =====
-- src/runs_write_api.rs: from the posted body to the stored run.
pub mod Convert
pub mod Parts
pub mod Kept
pub mod Built
pub mod Validated
pub mod Handler
pub mod Outcome
pub mod Answers
pub mod References
