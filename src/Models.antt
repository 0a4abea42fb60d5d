-- ===== src/Models.antt =====
-- src/models_api.rs: registering, listing and verifying model assets.
pub mod Paths
pub mod Handlers
pub mod Admission
pub mod Registering
