-- ===== src/TaskProcessor/Database.antt =====
-- One database of the task processor: the tables, and the next number for a new row's key. (A table
-- has a sequence of its own; one sequence for all of them gives fresh keys as well.)
use flagsmith_common.Base.{ℕ, List, String}
use flagsmith_common.Base.Table.{Table}
use flagsmith_common.TaskProcessor.Models.{Task, RecurringTask, AbstractTaskRun}

pub record Database : Type 0 where
  pub next_id : ℕ
  pub tasks : Table Task
  pub task_runs : Table AbstractTaskRun
  pub recurring_tasks : Table RecurringTask
  pub recurring_task_runs : Table AbstractTaskRun
  -- the `uuid` column of HealthCheckModel
  pub health_checks : List String
