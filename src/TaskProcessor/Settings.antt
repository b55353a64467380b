-- ===== src/TaskProcessor/Settings.antt =====
-- The Django settings that the package reads, and task_run_method.py.
use flagsmith_common.Base.{ℕ, Bool, String, List}

pub data TaskRunMethod : Type 0 where
  synchronously separate_thread task_processor : TaskRunMethod

-- Durations are in microseconds where the setting is a timedelta.
pub record Settings : Type 0 where
  pub task_processor_mode : Bool
  pub task_run_method : TaskRunMethod
  pub task_backoff_default_delay_seconds : ℕ
  pub task_processor_databases : List String
  pub databases : List String
  pub database_routers : List String
  pub enable_task_processor_health_check : Bool
  pub enable_clean_up_old_tasks : Bool
  pub task_delete_retention_days : ℕ
  pub task_delete_include_failed_tasks : Bool
  pub task_delete_batch_size : ℕ
  pub recurring_task_run_retention_days : ℕ
