-- ===== src/TaskProcessor.antt =====
-- src/task_processor: the queue of background tasks, the recurring tasks and their workers.
pub mod Exceptions
pub mod Json
pub mod Models
pub mod Queue
pub mod Settings
pub mod Registry
pub mod Database
pub mod Processor
pub mod Outcomes
pub mod Returns
pub mod Batches
pub mod Workers
pub mod Recurring
pub mod Tasks
pub mod Decorators
pub mod Threads
pub mod Startup
pub mod Routing
pub mod Examples
pub mod Rounds
