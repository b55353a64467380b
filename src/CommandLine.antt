-- ===== src/CommandLine.antt =====
-- The command `flagsmith`: common/core/main.py and common/core/cli/.
pub mod Django
pub mod Run
pub mod Plans
pub mod HealthCheck
pub mod Environment
pub mod Prepared
pub mod Main
mod Examples
