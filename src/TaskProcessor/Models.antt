-- ===== src/TaskProcessor/Models.antt =====
-- task_processor/models.py: the tasks, their runs, and the methods that change them.
mod Fields
mod Standard
mod Recurring
mod Schedule
unfoldable pub use Fields.*
pub use Standard.{Task, default_timeout, Task_waiting}
unfoldable pub use Standard.{is_queue_full, create, fail_task, succeed_task}
pub use Recurring.{RecurringTask, max_consecutive_failures, abandoned_details}
unfoldable pub use Recurring.{
  unlock_recurring, fail_recurring, succeed_recurring, reconcile_abandoned_run, is_task_registered,
}
unfoldable pub use Schedule.{last_run, should_execute}
pub use Schedule.{runs_of, first_run_today, is_success, recent}
