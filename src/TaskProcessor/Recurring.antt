-- ===== src/TaskProcessor/Recurring.antt =====
-- Recurring tasks: which one is picked, when it is executed, and when it is switched off.
pub mod Timing
pub mod Streaks
pub mod Reaper
pub mod Failures
