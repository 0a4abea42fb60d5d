-- ===== src/Artifacts.antt =====
-- src/artifacts_api.rs: uploading artifacts and serving them.
pub mod Names
pub mod Headers
pub mod Encoding
pub mod Limits
pub mod Handlers
pub mod Uploads
