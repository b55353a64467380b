-- ===== src/TaskProcessor/Routing.antt =====
-- task_processor/routers.py, apps.py and admin.py: where the tables live, what is checked at the
-- start, and what an administrator does by hand.
use flagsmith_common.Base.{
  ℕ, Bool, true, false, not, ◌&&◌, String, Option, none, some, List, [], ◌∷◌, any, str_eq,
  if◌then◌else◌,
}
use flagsmith_common.Base.Table.{Table, has_key}
use flagsmith_common.TaskProcessor.Exceptions.{Result, ok, raise, improperly_configured, ◌>>◌}
use flagsmith_common.TaskProcessor.Settings.{Settings, TaskRunMethod, task_processor}
use flagsmith_common.TaskProcessor.Models.{AbstractTaskRun, RecurringTask, TaskResult, last_run}

abbrev pub contains : String → List String → Bool
contains name names = any (λ other. str_eq other name) names

abbrev pub route_app_labels : List String
route_app_labels = "task_processor" ∷ []

-- TaskProcessorRouter.db_for_read, and db_for_write
unfoldable pub db_for_read : String → Option String
db_for_read app_label = if contains app_label route_app_labels then some "task_processor" else none

unfoldable pub db_for_write : String → Option String
db_for_write app_label = if contains app_label route_app_labels then some "task_processor" else none

unfoldable pub allow_relation : String → String → Option Bool
allow_relation app_label app_label' =
    if contains app_label route_app_labels && contains app_label' route_app_labels
    then some true
    else none

unfoldable pub allow_migrate : String → String → Option Bool
allow_migrate db app_label =
    if contains app_label route_app_labels
    then some (contains db ("default" ∷ "task_processor" ∷ []))
    else none

-- TaskProcessorAppConfig._validate_database_settings
unfoldable pub validate_database_settings : Settings → Result (Unit {0})
validate_database_settings settings =
    if not (contains "task_processor" settings.task_processor_databases)
    then ok tt
    else if not (contains "task_processor" settings.databases)
    then raise improperly_configured
    else if not (contains "task_processor.routers.TaskProcessorRouter" settings.database_routers)
    then raise improperly_configured
    else ok tt

abbrev is_task_processor : TaskRunMethod → Bool
is_task_processor task_processor = true
is_task_processor _ = false

-- TaskProcessorAppConfig.ready: whether the health check is registered.
unfoldable pub ready : Settings → Result Bool
unfolding validate_database_settings
ready settings =
    if not (is_task_processor settings.task_run_method)
    then ok false
    else (do validate_database_settings settings; ok settings.enable_task_processor_health_check)

-- RecurringTaskAdmin.unlock and enable, on the rows that were selected.
unfoldable pub admin_unlock : List ℕ → Table RecurringTask → Table RecurringTask
admin_unlock ks [] = []
admin_unlock ks ((k, t) ∷ rows) =
    (k, if has_key k ks then record t { base = record t.base { is_locked = false } } else t)
    ∷ admin_unlock ks rows

unfoldable pub admin_enable : List ℕ → Table RecurringTask → Table RecurringTask
admin_enable ks [] = []
admin_enable ks ((k, t) ∷ rows) =
    (k, if has_key k ks then record t { is_disabled = false; num_consecutive_failures = 0 } else t)
    ∷ admin_enable ks rows

-- RecurringTaskAdmin.last_run_status and last_run_finished_at, of the runs of a task.
unfoldable pub last_run_status : List AbstractTaskRun → Option TaskResult
unfolding last_run
last_run_status runs = elim (last_run runs) [ none ↦ none | some run ↦ run.result ]

unfoldable pub last_run_finished_at : List AbstractTaskRun → Option ℕ
unfolding last_run
last_run_finished_at runs = elim (last_run runs) [ none ↦ none | some run ↦ run.finished_at ]
