-- ===== src/TaskProcessor/Rounds.antt =====
-- Rounds of a worker that calls run_tasks over and over, as the loop of task_processor/threads.py does.
pub mod Alignment
pub mod Attempts
pub mod Runnable
pub mod Progress
use flagsmith_common.Base.{ℕ, suc, ◌-◌, ◌+◌, Bool, List, [], ◌∷◌, if◌then◌else◌}
use flagsmith_common.Base.Table.{Table}
use flagsmith_common.TaskProcessor.Json.{Json}
use flagsmith_common.TaskProcessor.Settings.{Settings}
use flagsmith_common.TaskProcessor.Models.{Task}
use flagsmith_common.TaskProcessor.Database.{Database}
use flagsmith_common.TaskProcessor.Queue.{get_tasks_to_process}
use flagsmith_common.TaskProcessor.Processor.{Surroundings, run_tasks}

-- How often a task can still be executed: the queue takes it until it has completed or failed three times.
abbrev pub attempts_of : Task → ℕ
attempts_of t = if t.completed then 0 else 3 - t.num_failures

abbrev pub attempts_left : Table Task → ℕ
attempts_left [] = 0
attempts_left ((k, t) ∷ rows) = attempts_of t + attempts_left rows
