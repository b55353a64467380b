-- ===== src/TestTools.antt =====
-- common/test_tools/: the fixtures of pytest for snapshots and for the edition of the deployment.
pub mod Snapshots
pub mod Updates
pub mod Editions
pub mod Calls
pub mod Markers
pub mod Isolation
pub mod Examples
