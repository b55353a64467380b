-- ===== src/TaskProcessor/Registry.antt =====
-- task_processor/task_registry.py, and get_task_identifier_from_function of utils.py.
use Prim.Native.Char.{code}
use flagsmith_common.Base.{
  ℕ, Bool, true, false, String, Option, none, some, List, [], ◌∷◌, ◌==◌, str_eq, if◌then◌else◌,
  filter, length, leb, ◌+◌,
}
use flagsmith_common.Base.Text.{concat}
use flagsmith_common.Base.Table.{Table, update, insert}
use flagsmith_common.TaskProcessor.Exceptions.{
  Result, ok, raise, hang, ◌>>=◌, from_option, assertion_error, task_processing_error,
  integrity_error, type_error, multiple_objects_returned,
}
use flagsmith_common.TaskProcessor.Models.{RecurringTask}

-- A callable, known by its module, which may be none, and its name.
pub record TaskFunction : Type 0 where
  pub module_name : Option String
  pub name : String

has_dot : String → Bool
has_dot String.[] = false
has_dot (String.◌∷◌ c s) = if code c == b'.' then true else has_dot s

-- name.rsplit(".")[-1]: the text behind the last dot
unfoldable pub last_segment : String → String
unfolding has_dot
last_segment String.[] = ""
last_segment (String.◌∷◌ c s) =
    let rest = last_segment s in
    if has_dot s then rest else if code c == b'.' then s else String.◌∷◌ c s

-- `task_name or function.__name__`
abbrev pub name_or : Option String → String → String
name_or none name = name
name_or (some task_name) name = if str_eq task_name "" then name else task_name

unfoldable pub get_task_identifier_from_function : TaskFunction → Option String → Result String
unfolding last_segment concat
get_task_identifier_from_function function task_name = do
  module_name ← from_option function.module_name assertion_error
  ok (concat (last_segment module_name) (concat "." (name_or task_name function.name)))

pub data TaskType : Type 0 where
  standard recurring : TaskType

-- The keyword arguments with which a recurring task is registered.
pub record TaskKwargs : Type 0 where
  pub serialized_args : String
  pub serialized_kwargs : String
  pub run_every : ℕ
  pub first_run_time : Option ℕ
  pub timeout : Option ℕ

pub record RegisteredTask : Type 0 where
  pub task_identifier : String
  pub task_function : TaskFunction
  pub task_type : TaskType
  pub task_kwargs : Option TaskKwargs

-- The dict `registered_tasks`, in its order of insertion.
abbrev pub Registry : Type 0
Registry = List (String × RegisteredTask)

unfoldable pub lookup : String → Registry → Option RegisteredTask
lookup name [] = none
lookup name ((key, task) ∷ tasks) = if str_eq key name then some task else lookup name tasks

-- registered_tasks[name] = task
unfoldable pub assign : String → RegisteredTask → Registry → Registry
assign name task [] = (name, task) ∷ []
assign name task ((key, old) ∷ tasks) =
    if str_eq key name then (key, task) ∷ tasks else (key, old) ∷ assign name task tasks

unfoldable pub get_task : Registry → String → Result RegisteredTask
unfolding lookup
get_task registered_tasks task_identifier =
    from_option (lookup task_identifier registered_tasks) (task_processing_error task_identifier)

unfoldable pub register_task : String → TaskFunction → Registry → Registry
unfolding assign
register_task task_identifier callable registered_tasks =
    assign task_identifier
      (record {
        task_identifier = task_identifier;
        task_function = callable;
        task_type = standard;
        task_kwargs = none;
      })
      registered_tasks

unfoldable pub register_recurring_task : String → TaskFunction → TaskKwargs → Registry → Registry
unfolding assign
register_recurring_task task_identifier callable task_kwargs registered_tasks =
    assign task_identifier
      (record {
        task_identifier = task_identifier;
        task_function = callable;
        task_type = recurring;
        task_kwargs = some task_kwargs;
      })
      registered_tasks

abbrev pub has_identifier : String → ℕ × RecurringTask → Bool
has_identifier task_identifier (k, t) = str_eq t.task_identifier task_identifier

-- The `defaults`, written over a row.
abbrev pub apply_defaults : TaskKwargs → ℕ → RecurringTask → RecurringTask
apply_defaults kwargs timeout t = record t {
  base = record t.base {
    serialized_args = some kwargs.serialized_args;
    serialized_kwargs = some kwargs.serialized_kwargs;
  };
  run_every = kwargs.run_every;
  first_run_time = kwargs.first_run_time;
  timeout = timeout;
}

-- A new row before its defaults are written.
abbrev pub blank : String → ℕ → RecurringTask
blank task_identifier now = record {
  base = record {
    created_at = now;
    task_identifier = task_identifier;
    serialized_args = none;
    serialized_kwargs = none;
    is_locked = false;
    trace_context = none;
  };
  run_every = 0;
  first_run_time = none;
  locked_at = none;
  timeout = 0;
  last_picked_at = none;
  is_disabled = false;
  num_consecutive_failures = 0;
}

-- The next number of the key sequence, and the recurring tasks.
abbrev pub Rows : Type 0
Rows = ℕ × Table RecurringTask

-- What a statement answers, and the rows that it leaves.
abbrev pub Saved : Type 0
Saved = Result (Unit {0}) × Rows

abbrev save_or_create :
    String → TaskKwargs → ℕ → ℕ → ℕ → Table RecurringTask → Table RecurringTask → Saved
save_or_create task_identifier kwargs timeout now next_id tasks [] = (
  ok tt,
  (next_id + 1, insert next_id (apply_defaults kwargs timeout (blank task_identifier now)) tasks),
)
save_or_create task_identifier kwargs timeout now next_id tasks ((k, t) ∷ []) =
    (ok tt, (next_id, update k (apply_defaults kwargs timeout) tasks))
save_or_create task_identifier kwargs timeout now next_id tasks (a ∷ b ∷ more) =
    (raise multiple_objects_returned, (next_id, tasks))

-- RecurringTask.objects.update_or_create(task_identifier=..., defaults=task_kwargs). The column
-- `timeout` takes no NULL, which only a row that is written meets.
unfoldable pub update_or_create : String → TaskKwargs → ℕ → Rows → Saved
unfolding update insert filter
update_or_create task_identifier kwargs now (next_id, tasks) =
    let found = filter (has_identifier task_identifier) tasks in
    elim kwargs.timeout [
      | none ↦ (
        raise (if leb 2 (length found) then multiple_objects_returned else integrity_error),
        (next_id, tasks),
      )
      | some timeout ↦ save_or_create task_identifier kwargs timeout now next_id tasks found
    ]

unfoldable pub persist : String × RegisteredTask → ℕ → Rows → Saved
unfolding update_or_create
persist (task_identifier, task) now rows = elim task.task_type [
  | standard ↦ (ok tt, rows)
  | recurring ↦ elim task.task_kwargs [
    | none ↦ (raise type_error, rows)
    | some kwargs ↦ update_or_create task_identifier kwargs now rows
  ]
]

-- The loop of `initialise`: what was saved before an exception stays saved.
unfoldable pub initialise : Registry → ℕ → Rows → Saved
unfolding persist
initialise [] now rows = (ok tt, rows)
initialise (entry ∷ entries) now rows =
    let (saved, rows') = persist entry now rows in
    let rest = initialise entries now rows' in
    elim saved [ ok _ ↦ rest | raise e ↦ (raise e, rows') | hang ↦ (hang, rows') ]
