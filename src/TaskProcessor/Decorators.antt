-- ===== src/TaskProcessor/Decorators.antt =====
-- task_processor/decorators.py: handlers, and what `delay` does with a task.
pub mod Callers
pub mod Dispatch
use flagsmith_common.Base.{
  ℕ, ◌+◌, Bool, true, false, not, ◌&&◌, String, Option, none, some, List, [], ◌∷◌, if◌then◌else◌,
}
use flagsmith_common.Base.Table.{insert}
use flagsmith_common.TaskProcessor.Json.{Json, value_or}
use flagsmith_common.TaskProcessor.Exceptions.{
  Exception, Result, ok, raise, hang, ◌>>=◌, ◌>>◌, from_option, invalid_arguments_error,
  task_queue_full_error, type_error,
}
use flagsmith_common.TaskProcessor.Settings.{
  Settings, TaskRunMethod, synchronously, separate_thread, task_processor,
}
use flagsmith_common.TaskProcessor.Models.{Task, TaskPriority, TraceContext, create}
use flagsmith_common.TaskProcessor.Registry.{
  TaskFunction, TaskKwargs, Registry, get_task_identifier_from_function, register_task, name_or,
}
use flagsmith_common.TaskProcessor.Registry
use flagsmith_common.TaskProcessor.Database.{Database}
use flagsmith_common.TaskProcessor.Processor.{Ending, returned, raised}

pub record TaskHandler : Type 0 where
  pub unwrapped : TaskFunction
  pub queue_size : Option ℕ
  pub priority : TaskPriority
  pub transaction_on_commit : Bool
  pub task_identifier : String
  pub timeout : Option ℕ

-- TaskHandler.__init__: the handler, and the registry with its function.
unfoldable pub init_handler :
    (f : TaskFunction) (task_name : Option String) (queue_size : Option ℕ) (priority : TaskPriority)
    (transaction_on_commit : Bool) (timeout : Option ℕ)
    → Registry
    → Result (TaskHandler × Registry)
unfolding get_task_identifier_from_function register_task
init_handler f task_name queue_size priority transaction_on_commit timeout registered_tasks = do
  task_identifier ← get_task_identifier_from_function f task_name
  ok (
    record {
      unwrapped = f;
      queue_size = queue_size;
      priority = priority;
      transaction_on_commit = transaction_on_commit;
      task_identifier = task_identifier;
      timeout = timeout;
    },
    register_task task_identifier f registered_tasks,
  )

-- register_task_handler, applied to `f`.
unfoldable pub register_task_handler :
    (task_name : Option String) (queue_size : Option ℕ) (priority : TaskPriority)
    (transaction_on_commit : Bool) (timeout : Option ℕ) (f : TaskFunction)
    → Registry
    → Result (TaskHandler × Registry)
unfolding init_handler
register_task_handler task_name queue_size priority transaction_on_commit timeout f
      registered_tasks =
    init_handler f task_name queue_size priority transaction_on_commit timeout registered_tasks

-- What a handler does outside the database.
pub data Effect (Value : Type 0) : Type 0 where
  -- the function is called in this thread
  call : TaskFunction → Value → Value → Effect Value
  -- a daemon thread is started for it, at once or when the transaction is committed
  start_thread : TaskFunction → Value → Value → Effect Value
  start_thread_on_commit : TaskFunction → Value → Value → Effect Value
  -- the counter of enqueued tasks goes up
  count_enqueued : String → Effect Value

-- The key of the task that was saved, if any.
pub record Delayed (Value : Type 0) : Type 0 where
  pub result : Result (Option ℕ)
  pub effects : List (Effect Value)
  pub database : Database

abbrev is_task_processor : TaskRunMethod → Bool
is_task_processor task_processor = true
is_task_processor _ = false

abbrev is_given : Option ℕ → Bool
is_given none = false
is_given (some _) = true

module _ (json : Json) where
  abbrev pub is_serializable : json.Value → Bool
  is_serializable v = elim (json.dumps v) [ none ↦ false | some _ ↦ true ]

  -- _validate_inputs
  unfoldable pub validate_inputs : json.Value → json.Value → Result (Unit {0})
  validate_inputs args kwargs =
      if is_serializable (value_or json args json.empty_tuple)
        && is_serializable (value_or json kwargs json.empty_dict)
      then ok tt
      else raise invalid_arguments_error

  abbrev kwargs_or_empty : Option json.Value → json.Value
  kwargs_or_empty none = json.empty_dict
  kwargs_or_empty (some kwargs) = value_or json kwargs json.empty_dict

  -- How a call in this thread ends: its exception is the caller's.
  abbrev pub ended : Ending → Result (Unit {0})
  ended returned = ok tt
  ended (raised e) = raise e

  -- TaskHandler.__call__
  unfoldable pub call_handler :
      TaskHandler
      → (TaskFunction → json.Value → json.Value → Ending)
      → json.Value
      → json.Value
      → Result (Unit {0})
  unfolding validate_inputs
  call_handler handler ending args kwargs = do
    validate_inputs args kwargs
    ended (ending handler.unwrapped args kwargs)

  -- TaskHandler.run_in_thread
  unfoldable pub run_in_thread :
      TaskHandler → json.Value → Option json.Value → Result (Unit {0}) × List (Effect json.Value)
  unfolding validate_inputs
  run_in_thread handler args kwargs =
      let kwargs' = kwargs_or_empty kwargs in
      let start =
        if handler.transaction_on_commit
        then start_thread_on_commit handler.unwrapped args kwargs'
        else start_thread handler.unwrapped args kwargs' in
      elim (validate_inputs args kwargs') [
        | ok _ ↦ (ok tt, start ∷ [])
        | raise e ↦ (raise e, [])
        | hang ↦ (hang, [])
      ]

  -- task.save(), which sets the key and created_at
  abbrev pub save_new : ℕ → Task → Database → Database
  save_new now task db = record db {
    next_id = db.next_id + 1;
    tasks =
        insert db.next_id (record task { base = record task.base { created_at = now } }) db.tasks;
  }

  -- The branch that creates a task: a full queue is no error.
  abbrev pub saved : Result Task → ℕ → List (Effect json.Value) → Database → Delayed json.Value
  saved (ok task) now effects db = record {
    result = ok (some db.next_id);
    effects = effects;
    database = save_new now task db;
  }
  saved (raise (task_queue_full_error task_identifier queue_size)) now effects db = record {
    result = ok none;
    effects = effects;
    database = db;
  }
  saved (raise e) now effects db = record { result = raise e; effects = effects; database = db }
  saved hang now effects db = record { result = hang; effects = effects; database = db }

  -- TaskHandler.delay. `ending` tells how a call of a function ends, `carrier` is what the
  -- propagator injects, `now` the clock, and `meanwhile` what others do to the database between the
  -- count of the queue and the insertion, which are two statements.
  unfoldable pub delay :
      (settings : Settings) (handler : TaskHandler)
      (ending : TaskFunction → json.Value → json.Value → Ending) (carrier : Option TraceContext)
      (now : ℕ) (delay_until : Option ℕ) (args : json.Value) (kwargs : Option json.Value)
      (meanwhile : Database → Database)
      → Database
      → Delayed json.Value
  unfolding validate_inputs run_in_thread create insert
  delay settings handler ending carrier now delay_until args kwargs meanwhile db =
      let kwargs' = kwargs_or_empty kwargs in
      let moment : ℕ = elim delay_until [ none ↦ now | some moment ↦ moment ] in
      let threaded = run_in_thread handler args (some kwargs') in
      let validated = validate_inputs args kwargs' in
      let task =
        create json handler.task_identifier moment handler.priority handler.queue_size args kwargs'
          handler.timeout carrier db.tasks in
      if is_given delay_until && not (is_task_processor settings.task_run_method)
      then record { result = ok none; effects = []; database = db }
      else elim settings.task_run_method [
        | synchronously ↦ elim validated [
          | ok _ ↦ record {
            result = (do ended (ending handler.unwrapped args kwargs'); ok none);
            effects = call handler.unwrapped args kwargs' ∷ [];
            database = db;
          }
          | raise e ↦ record { result = raise e; effects = []; database = db }
          | hang ↦ record { result = hang; effects = []; database = db }
        ]
        | separate_thread ↦ record {
          result = (do threaded.0; ok none);
          effects = threaded.1;
          database = db;
        }
        | task_processor ↦
            saved task now (count_enqueued handler.task_identifier ∷ []) (meanwhile db)
      ]

  -- register_recurring_task, applied to `f`: outside the task processor it registers nothing.
  unfoldable pub register_recurring :
      (settings : Settings) (run_every : ℕ) (task_name : Option String) (args kwargs : json.Value)
      (first_run_time timeout : Option ℕ) (f : TaskFunction)
      → Registry
      → Result Registry
  unfolding get_task_identifier_from_function Registry.register_recurring_task
  register_recurring settings run_every task_name args kwargs first_run_time timeout f
        registered_tasks =
      let registered = (do
        task_identifier ← get_task_identifier_from_function f (some (name_or task_name f.name))
        serialized_args ← from_option (json.dumps (value_or json args json.empty_tuple)) type_error
        serialized_kwargs ←
            from_option (json.dumps (value_or json kwargs json.empty_dict)) type_error
        ok (
            Registry.register_recurring_task task_identifier f
              (record {
                serialized_args = serialized_args;
                serialized_kwargs = serialized_kwargs;
                run_every = run_every;
                first_run_time = first_run_time;
                timeout = timeout;
              })
              registered_tasks)) in
      if settings.task_processor_mode then registered else ok registered_tasks
