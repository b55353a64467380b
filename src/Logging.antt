-- ===== src/Logging.antt =====
-- common/core/logging.py and sentry.py: the set-up of logging, and the records that it writes as JSON.
pub mod Records
pub mod Fields
pub mod Levels
pub mod SetUp
pub mod Thresholds
pub mod Examples
