-- ===== src/ImportLog.antt =====
-- src/bin/import_observer_log.rs: the importer of benchmark logs.
pub mod Parse
pub mod Markers
pub mod Manifest
pub mod Import
pub mod Loop
pub mod Again
pub mod Inserts
pub mod Counted
