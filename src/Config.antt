-- ===== src/Config.antt =====
-- src/config.rs: the configuration from the environment, and the storage roots.
pub mod Vars
pub mod Env
pub mod Roots
pub mod Values
pub mod Loaded
