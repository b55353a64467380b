-- ===== src/TaskProcessor/Processor/Single.antt =====
-- _run_task: one execution of a task of either kind.
use flagsmith_common.Base.{
  ℕ, ◌+◌, ◌*◌, Bool, true, false, String, Option, none, some, ◌==◌, leb, if◌then◌else◌,
}
use flagsmith_common.TaskProcessor.Exceptions.{
  Exception, task_backoff_error, timeout_error, assertion_error, attribute_error, is_caught, Result,
  ok, raise, hang, ◌>>=◌, ◌>>◌, check, from_option,
}
use flagsmith_common.TaskProcessor.Json.{Json}
use flagsmith_common.TaskProcessor.Settings.{Settings}
use flagsmith_common.TaskProcessor.Models.{
  AbstractBaseTask, AbstractTaskRun, TaskResult, success, failure, Task, RecurringTask, args,
  kwargs, fail_task, succeed_task, fail_recurring, succeed_recurring, second,
}
use flagsmith_common.TaskProcessor.Registry.{
  TaskFunction, TaskType, standard, recurring, RegisteredTask, Registry, get_task,
}

-- What _run_task asks of a model: the methods and attributes of its class.
pub record TaskModel (T : Type 0) : Type 0 where
  pub base : T → AbstractBaseTask
  pub timeout : T → Option ℕ
  pub mark_failure : T → T
  pub mark_success : T → T
  -- none: the class has no such attribute
  pub num_failures : T → Option ℕ
  pub reschedule : ℕ → T → T

instance abbrev pub task_model : TaskModel Task
task_model = record {
  base = λ t. t.base;
  timeout = λ t. t.timeout;
  mark_failure = fail_task;
  mark_success = succeed_task;
  num_failures = λ t. some t.num_failures;
  reschedule = λ moment t. record t { scheduled_for = some moment };
}

instance abbrev pub recurring_model : TaskModel RecurringTask
recurring_model = record {
  base = λ t. t.base;
  timeout = λ t. some t.timeout;
  mark_failure = fail_recurring;
  mark_success = succeed_recurring;
  num_failures = λ t. none;
  reschedule = λ moment t. t;
}

-- How a call of a task's function ends, and after how long: none if it never ends.
pub data Ending : Type 0 where
  returned : Ending
  raised : Exception → Ending

pub record Call : Type 0 where
  pub takes : Option ℕ
  pub ends : Ending

-- future.result(timeout): none if it never returns.
unfoldable pub future_result : Option ℕ → Call → Option Ending
future_result none call = elim call.takes [ none ↦ none | some duration ↦ some call.ends ]
future_result (some timeout) call = elim call.takes [
  | none ↦ some (raised timeout_error)
  | some duration ↦ some (if leb duration timeout then call.ends else raised timeout_error)
]

-- task.timeout.total_seconds() if task.timeout else None: a timedelta of 0 is false.
abbrev pub wait_limit : Option ℕ → Option ℕ
wait_limit none = none
wait_limit (some timeout) = if timeout == 0 then none else some timeout

-- What happens while one task is executed: the call, the clock before and after it, and the text
-- of the traceback if it fails.
pub record Execution (json : Json) : Type 0 where
  pub started_at : ℕ
  pub call : TaskFunction → json.Value → json.Value → Call
  pub ended_at : ℕ
  pub traceback : String

pub record Labels : Type 0 where
  pub task_identifier : String
  pub task_type : TaskType
  pub result : TaskResult

pub record Finished (T : Type 0) : Type 0 where
  pub task : T
  pub run : AbstractTaskRun
  pub labels : Labels

abbrev pub is_standard : TaskType → Bool
is_standard standard = true
is_standard recurring = false

-- `task.task_runs.model(started_at=timezone.now(), task=task)`
abbrev pub new_run : ℕ → ℕ → AbstractTaskRun
new_run started_at pk = record {
  started_at = started_at;
  finished_at = none;
  result = none;
  error_details = none;
  task = pk;
}

abbrev pub run_or_new : Option AbstractTaskRun → ℕ → ℕ → AbstractTaskRun
run_or_new none started_at pk = new_run started_at pk
run_or_new (some run) started_at pk = run

module _ {T : Type 0} ⦃m : TaskModel T⦄ (settings : Settings) where
  abbrev pub labels_of : RegisteredTask → T → TaskResult → Labels
  labels_of registered task result = record {
    task_identifier = (m.base task).task_identifier;
    task_type = registered.task_type;
    result = result;
  }

  -- `if isinstance(e, TaskBackoffError)`, of a task that is marked as failed.
  unfoldable pub back_off : RegisteredTask → Exception → ℕ → T → Result T
  back_off registered (task_backoff_error delay_until) now task = do
    check (is_standard registered.task_type) assertion_error
    num_failures ← from_option (m.num_failures task) attribute_error
    let default = now + settings.task_backoff_default_delay_seconds * second
    let moment : ℕ = elim delay_until [ none ↦ default | some moment ↦ moment ]
    ok (if leb num_failures 3 then m.reschedule moment task else task)
  back_off registered _ now task = ok task

  -- The try statement: what is written down about the task and its run.
  unfoldable pub settle :
      RegisteredTask → Ending → ℕ → String → T → AbstractTaskRun → Result (Finished T)
  unfolding back_off
  settle registered returned now traceback task run = ok (record {
    task = m.mark_success task;
    run = record run { result = some success; finished_at = some now };
    labels = labels_of registered task success;
  })
  settle registered (raised e) now traceback task run =
      if is_caught e
      then (do
        task' ← back_off registered e now (m.mark_failure task)
        ok (record {
          task = task';
          run = record run { result = some failure; error_details = some traceback };
          labels = labels_of registered task failure;
        }))
      else raise e

  abbrev pub settle_or_hang :
      RegisteredTask → Option Ending → ℕ → String → T → AbstractTaskRun → Result (Finished T)
  settle_or_hang registered none now traceback task run = hang
  settle_or_hang registered (some ending) now traceback task run =
      settle registered ending now traceback task run

  -- Up to the try statement: the assertion, the registry, and the log line, which reads the
  -- arguments already, so that a document which does not parse is not caught.
  unfoldable pub prepare :
      (json : Json) → Registry → T → Result (RegisteredTask × json.Value × json.Value)
  unfolding get_task args kwargs
  prepare json registered_tasks task = do
    check settings.task_processor_mode assertion_error
    registered ← get_task registered_tasks (m.base task).task_identifier
    task_args ← args json (m.base task)
    task_kwargs ← kwargs json (m.base task)
    ok (registered, task_args, task_kwargs)

  abbrev pub attempt :
      (json : Json)
      → Execution json
      → ℕ
      → T
      → Option AbstractTaskRun
      → RegisteredTask × json.Value × json.Value
      → Result (Finished T)
  attempt json x pk task task_run (registered, task_args, task_kwargs) =
      settle_or_hang registered
        (future_result (wait_limit (m.timeout task))
          (x.call registered.task_function task_args task_kwargs))
        x.ended_at x.traceback task (run_or_new task_run x.started_at pk)

  -- _run_task
  unfoldable pub run_task :
      (json : Json) (registered_tasks : Registry) (x : Execution json) (pk : ℕ) (task : T)
      (task_run : Option AbstractTaskRun)
      → Result (Finished T)
  unfolding settle future_result prepare
  run_task json registered_tasks x pk task task_run =
      prepare json registered_tasks task >>= attempt json x pk task task_run
