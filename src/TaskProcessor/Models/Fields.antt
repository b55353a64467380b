-- ===== src/TaskProcessor/Models/Fields.antt =====
-- The columns of AbstractBaseTask and AbstractTaskRun. A datetime is a count of microseconds from
-- some epoch at midnight UTC, a timedelta is a count of microseconds; neither is negative.
-- The `uuid` column, which the package never reads, is left out.
use flagsmith_common.Base.{
  ℕ, ◌*◌, Bool, false, String, Option, none, some, List, str_eq, if◌then◌else◌,
}
use flagsmith_common.TaskProcessor.Json.{Json}
use flagsmith_common.TaskProcessor.Exceptions.{Result, ok, ◌>>=◌, json_decode_error, from_option}

abbrev pub second : ℕ
second = 1_000_000

abbrev pub minute : ℕ
minute = 60 * second

abbrev pub hour : ℕ
hour = 60 * minute

abbrev pub day : ℕ
day = 24 * hour

pub data TaskPriority : Type 0 where
  lower low normal high highest : TaskPriority

abbrev pub priority_value : TaskPriority → ℕ
priority_value lower = 100
priority_value low = 75
priority_value normal = 50
priority_value high = 25
priority_value highest = 0

abbrev pub TraceContext : Type 0
TraceContext = List (String × String)

pub record AbstractBaseTask : Type 0 where
  pub created_at : ℕ
  pub task_identifier : String
  pub serialized_args : Option String
  pub serialized_kwargs : Option String
  pub is_locked : Bool
  pub trace_context : Option TraceContext

pub data TaskResult : Type 0 where
  success failure : TaskResult

-- `task` is the primary key of the task that was run.
pub record AbstractTaskRun : Type 0 where
  pub started_at : ℕ
  pub finished_at : Option ℕ
  pub result : Option TaskResult
  pub error_details : Option String
  pub task : ℕ

abbrev pub unlock_base : AbstractBaseTask → AbstractBaseTask
unlock_base t = record t { is_locked = false }

module _ (json : Json) where
  -- `if text: ... deserialize_data(text)`: a missing or an empty text is the default.
  abbrev deserialize_or : Option String → json.Value → Result json.Value
  deserialize_or none default = ok default
  deserialize_or (some text) default =
      if str_eq text "" then ok default else from_option (json.loads text) json_decode_error

  unfoldable pub args : AbstractBaseTask → Result json.Value
  args t = do value ← deserialize_or t.serialized_args json.empty_tuple; ok (json.to_tuple value)

  unfoldable pub kwargs : AbstractBaseTask → Result json.Value
  kwargs t = deserialize_or t.serialized_kwargs json.empty_dict
