-- ===== src/RunsApi.antt =====
-- src/runs_api.rs: the handlers that list and read runs.
pub mod Params
pub mod List
pub mod Detail
pub mod Shown
pub mod Echo
pub mod Parsed
pub mod Follow
