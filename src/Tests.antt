-- ===== src/Tests.antt =====
-- Runs of the definitions at concrete inputs, and the theorems at them.
pub mod Disk
pub mod Instance
pub mod Memory
pub mod Request
pub mod Writing
pub mod Showing
pub mod Storing
pub mod Streaming
pub mod Grouping
pub mod Listing
pub mod Uploading
pub mod Serving
pub mod Registry
pub mod Admitting
pub mod Importing
pub mod Counting
pub mod Following
pub mod Auditing
pub mod Configuring
