-- ===== src/TaskProcessor/Examples.antt =====
-- A small task processor to evaluate the theorems on: a JSON codec on texts, two handlers, and a
-- queue of four tasks.
pub mod Queues
pub mod Runs
pub mod Schedules
pub mod Rounds
use flagsmith_common.Base.{
  ℕ, ◌*◌, Bool, true, false, String, Option, none, some, List, [], ◌∷◌, str_eq, if◌then◌else◌,
}
use flagsmith_common.Base.Table.{Table}
use flagsmith_common.TaskProcessor.Json.{Json}
use flagsmith_common.TaskProcessor.Exceptions.{task_backoff_error, other_error}
use flagsmith_common.TaskProcessor.Settings.{Settings, TaskRunMethod, synchronously, task_processor}
use flagsmith_common.TaskProcessor.Models.{
  AbstractBaseTask, AbstractTaskRun, Task, RecurringTask, hour, normal, second,
}
use flagsmith_common.TaskProcessor.Registry.{
  Registry, RegisteredTask, TaskFunction, TaskType, standard, recurring,
}
use flagsmith_common.TaskProcessor.Database.{Database}
use flagsmith_common.TaskProcessor.Processor.{
  Call, Execution, Ending, returned, raised, Surroundings,
}
use flagsmith_common.TaskProcessor.Decorators.{TaskHandler}

-- Values are their own documents; only "{" is no document.
abbrev pub texts : Json
texts = record {
  Value = String;
  dumps = λ v. some v;
  loads = λ v. if str_eq v "{" then none else some v;
  to_tuple = λ v. v;
  empty_tuple = "[]";
  empty_dict = "{}";
  is_empty = λ v. str_eq v "";
}

abbrev pub settings_with : TaskRunMethod → Settings
settings_with method = record {
  task_processor_mode = true;
  task_run_method = method;
  task_backoff_default_delay_seconds = 5;
  task_processor_databases = "default" ∷ [];
  databases = "default" ∷ [];
  database_routers = [];
  enable_task_processor_health_check = false;
  enable_clean_up_old_tasks = true;
  task_delete_retention_days = 1;
  task_delete_include_failed_tasks = false;
  task_delete_batch_size = 1;
  recurring_task_run_retention_days = 30;
}

abbrev pub settings : Settings
settings = settings_with task_processor

abbrev pub base_of : String → Bool → AbstractBaseTask
base_of task_identifier is_locked = record {
  created_at = 5;
  task_identifier = task_identifier;
  serialized_args = some "[1]";
  serialized_kwargs = none;
  is_locked = is_locked;
  trace_context = none;
}

abbrev pub task_of : String → ℕ → ℕ → Bool → Task
task_of task_identifier priority num_failures completed = record {
  base = base_of task_identifier false;
  scheduled_for = some 10;
  timeout = some (60 * second);
  num_failures = num_failures;
  completed = completed;
  priority = some priority;
}

abbrev pub tasks : Table Task
tasks =
    (1, task_of "mails.send" 50 0 false)
    ∷ (2, task_of "mails.send" 0 1 false)
    ∷ (3, task_of "mails.send" 25 3 false)
    ∷ (4, task_of "lost.task" 75 0 false)
    ∷ []

abbrev pub nobody : ℕ → Bool
nobody _ = false

abbrev pub send : TaskFunction
send = record { module_name = some "mails"; name = "send" }

abbrev pub registry_of : TaskType → Registry
registry_of task_type =
    (
      "mails.send",
      record {
        task_identifier = "mails.send";
        task_function = send;
        task_type = task_type;
        task_kwargs = none;
      },
    )
    ∷ []

abbrev pub execution_of : Option ℕ → Ending → Execution texts
execution_of takes ends = record {
  started_at = 20;
  call = λ _ _ _. record { takes = takes; ends = ends };
  ended_at = 30;
  traceback = "Traceback";
}

abbrev pub surroundings : Surroundings texts
surroundings = record {
  registered_tasks = registry_of standard;
  busy = nobody;
  now = 100;
  execution = λ _. execution_of (some 7) returned;
  meanwhile = λ db. db;
}

abbrev pub database : Database
database = record {
  next_id = 5;
  tasks = tasks;
  task_runs = [];
  recurring_tasks = [];
  recurring_task_runs = [];
  health_checks = [];
}

abbrev pub handler : TaskHandler
handler = record {
  unwrapped = send;
  queue_size = some 2;
  priority = normal;
  transaction_on_commit = true;
  task_identifier = "mails.send";
  timeout = some (60 * second);
}

abbrev pub recurring_of : Bool → Option ℕ → RecurringTask
recurring_of is_locked last_picked_at = record {
  base = base_of "mails.send" is_locked;
  run_every = hour;
  first_run_time = some (6 * hour);
  locked_at = some 0;
  timeout = 1800 * second;
  last_picked_at = last_picked_at;
  is_disabled = false;
  num_consecutive_failures = 0;
}
