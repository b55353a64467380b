-- ===== src/TaskProcessor/Threads.antt =====
-- task_processor/threads.py: one round of a TaskRunner over its databases, and the coordinator's
-- watch over the runners.
pub mod Runs
pub mod Calls
pub mod Batches
pub mod Survival
use flagsmith_common.Base.{
  ℕ, ◌+◌, ◌*◌, Bool, true, false, not, ◌||◌, String, Option, none, some, List, [], ◌∷◌, any, filter,
  ltb, str_eq, if◌then◌else◌,
}
use flagsmith_common.TaskProcessor.Exceptions.{is_caught, Result, ok, raise, hang}
use flagsmith_common.TaskProcessor.Json.{Json}
use flagsmith_common.TaskProcessor.Settings.{Settings}
use flagsmith_common.TaskProcessor.Database.{Database}
use flagsmith_common.TaskProcessor.Processor.{Surroundings, Occasion, run_tasks, run_recurring_task}

-- The databases by their alias, and what surrounds the calls on each of them.
abbrev pub Databases : Type 0
Databases = String → Database

abbrev pub put : String → Database → Databases → Databases
put name db dbs other = if str_eq name other then db else dbs other

abbrev pub contains : String → List String → Bool
contains name names = any (λ other. str_eq other name) names

abbrev pub xor : Bool → Bool → Bool
xor true b = not b
xor false b = b

-- (database == "default") ^ database_is_separate
unfoldable pub runs_recurring : List String → String → Bool
runs_recurring databases name = xor (str_eq name "default") (contains "task_processor" databases)

abbrev forget : {A : Type 0} → Result A → Result (Unit {0})
forget (ok a) = ok tt
forget (raise e) = raise e
forget hang = hang

module _ (settings : Settings) (json : Json) (queue_pop_size : ℕ) (s : String → Surroundings json)
    (o : String → Occasion json) where
  -- The try statement for one database: the result, and the database left.
  unfoldable pub visit : String → Database → Result (Unit {0}) × Database
  unfolding run_tasks run_recurring_task runs_recurring
  visit name db =
      let (r, db') = run_tasks settings json (s name) queue_pop_size db in
      let (r', db'') = run_recurring_task settings json (o name) db' in
      elim r [
        | ok runs ↦
            if runs_recurring settings.task_processor_databases name
            then (forget r', db'')
            else (ok tt, db')
        | raise e ↦ (raise e, db')
        | hang ↦ (hang, db')
      ]

  -- The loop of run_iteration. What the handler catches is logged, and the next database follows.
  unfoldable pub visit_each : List String → Databases → Result (Unit {0}) × Databases
  unfolding visit
  visit_each [] dbs = (ok tt, dbs)
  visit_each (name ∷ names) dbs =
      let (r, db) = visit name (dbs name) in
      let dbs' = put name db dbs in
      let rest = visit_each names dbs' in
      elim r [
        | ok _ ↦ rest
        | raise e ↦ if is_caught e then rest else (raise e, dbs')
        | hang ↦ (hang, dbs')
      ]

  unfoldable pub run_iteration : Databases → Result (Unit {0}) × Databases
  unfolding visit_each
  run_iteration dbs = visit_each settings.task_processor_databases dbs

-- What the coordinator sees of a TaskRunner.
pub record TaskRunner : Type 0 where
  pub is_alive : Bool
  pub last_checked_for_tasks : Option ℕ

abbrev millisecond : ℕ
millisecond = 1000

abbrev pub is_unhealthy : ℕ → ℕ → TaskRunner → Bool
is_unhealthy ms_before_unhealthy now thread =
    not thread.is_alive || (elim thread.last_checked_for_tasks [
      | none ↦ true
      | some checked ↦ ltb (checked + ms_before_unhealthy * millisecond) now
    ])

-- TaskRunnerCoordinator._get_unhealthy_threads
unfoldable pub get_unhealthy_threads : ℕ → ℕ → List TaskRunner → List TaskRunner
unfolding filter
get_unhealthy_threads ms_before_unhealthy now threads =
    filter (is_unhealthy ms_before_unhealthy now) threads

-- utils.py and types.py: the configuration, and the limit that the coordinator derives from it.
pub record TaskProcessorConfig : Type 0 where
  pub num_threads : ℕ
  pub sleep_interval_ms : ℕ
  pub grace_period_ms : ℕ
  pub queue_pop_size : ℕ

abbrev pub ms_before_unhealthy : TaskProcessorConfig → ℕ
ms_before_unhealthy config = config.grace_period_ms + config.sleep_interval_ms
