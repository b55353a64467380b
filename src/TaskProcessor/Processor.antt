-- ===== src/TaskProcessor/Processor.antt =====
-- task_processor/processor.py: one execution of a task, a batch of tasks, and the recurring tasks.
-- Spans, timers and log records are left out; the labels of the finished-tasks counter are kept.
mod Single
mod Batch
mod Recurrence
pub use Single.{
  TaskModel, task_model, recurring_model, Ending, returned, raised, Call, wait_limit, Execution,
  Labels, Finished, is_standard, labels_of, new_run, run_or_new, settle_or_hang, attempt,
}
unfoldable pub use Single.{future_result, back_off, settle, prepare, run_task}
pub use Batch.{Surroundings, store_result, Executed, add_finished, if_any}
unfoldable pub use Batch.{bulk_update, bulk_create, run_each, write_back, run_tasks}
pub use Recurrence.{
  unregistered_recurring_task_grace_period, Occasion, Outcome, names, store_recurring,
}
unfoldable pub use Recurrence.{
  save_recurring, save_run, delete_recurring, begin_run, finish_run, execute_recurring,
  drop_unregistered, process_recurring, run_recurring_task,
}
