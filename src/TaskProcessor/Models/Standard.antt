-- ===== src/TaskProcessor/Models/Standard.antt =====
-- The model Task.
use flagsmith_common.Base.{
  ℕ, ◌+◌, ◌*◌, Bool, true, false, not, ◌&&◌, String, Option, none, some, ltb, ◌==◌, length, filter,
  str_eq, if◌then◌else◌,
}
use flagsmith_common.Base.Table.{Table}
use flagsmith_common.TaskProcessor.Json.{Json, value_or}
use flagsmith_common.TaskProcessor.Exceptions.{
  Result, ok, raise, from_option, type_error, task_queue_full_error, ◌>>=◌,
}
use flagsmith_common.TaskProcessor.Models.Fields.{
  AbstractBaseTask, TaskPriority, TraceContext, priority_value, second, unlock_base,
}

pub record Task : Type 0 where
  pub base : AbstractBaseTask
  pub open base use *
  pub scheduled_for : Option ℕ
  pub timeout : Option ℕ
  pub num_failures : ℕ
  pub completed : Bool
  pub priority : Option ℕ

-- The default of `timeout` in `create`.
abbrev pub default_timeout : Option ℕ
default_timeout = some (60 * second)

-- The rows that the filter of `_is_queue_full` counts.
abbrev pub Task_waiting : String → ℕ × Task → Bool
Task_waiting task_identifier (k, t) =
    str_eq t.task_identifier task_identifier && not t.completed && ltb t.num_failures 3

unfoldable pub is_queue_full : String → ℕ → Table Task → Bool
is_queue_full task_identifier queue_size tasks =
    ltb queue_size (length (filter (Task_waiting task_identifier) tasks))

-- `if queue_size and cls._is_queue_full(...)`: a size of 0 is no size.
abbrev refuses : String → Option ℕ → Table Task → Option ℕ
refuses task_identifier none tasks = none
refuses task_identifier (some queue_size) tasks =
    if not (queue_size == 0) && is_queue_full task_identifier queue_size tasks
    then some queue_size
    else none

-- The new object is not saved yet; `created_at` is set by `save`.
unfoldable pub create :
    (json : Json) (task_identifier : String) (scheduled_for : ℕ) (priority : TaskPriority)
    (queue_size : Option ℕ) (args kwargs : json.Value) (timeout : Option ℕ)
    (trace_context : Option TraceContext)
    → Table Task
    → Result Task
unfolding is_queue_full
create json task_identifier scheduled_for priority queue_size args kwargs timeout trace_context
      tasks =
    elim (refuses task_identifier queue_size tasks) [
      | some size ↦ raise (task_queue_full_error task_identifier size)
      | none ↦ do
        serialized_args ← from_option (json.dumps (value_or json args json.empty_tuple)) type_error
        serialized_kwargs ←
            from_option (json.dumps (value_or json kwargs json.empty_dict)) type_error
        ok (record {
          base = record {
            created_at = 0;
            task_identifier = task_identifier;
            serialized_args = some serialized_args;
            serialized_kwargs = some serialized_kwargs;
            is_locked = false;
            trace_context = trace_context;
          };
          scheduled_for = some scheduled_for;
          timeout = timeout;
          num_failures = 0;
          completed = false;
          priority = some (priority_value priority);
        })
    ]

-- Task.mark_failure
unfoldable pub fail_task : Task → Task
fail_task t = record t { base = unlock_base t.base; num_failures = t.num_failures + 1 }

-- Task.mark_success
unfoldable pub succeed_task : Task → Task
succeed_task t = record t { base = unlock_base t.base; completed = true }
