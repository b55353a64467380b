-- ===== src/TaskProcessor/Tasks.antt =====
-- task_processor/tasks.py: the package's own tasks.
pub mod CleanUp
use flagsmith_common.Base.{
  ℕ, zero, suc, ◌+◌, ◌*◌, Bool, true, false, not, ◌&&◌, ◌||◌, String, Option, none, some, List, [],
  ◌∷◌, take, filter, ltb, leb, length, any, str_eq, if◌then◌else◌, ◌==◌,
}
use flagsmith_common.Base.Table.{Table, keys, has_key}
use flagsmith_common.TaskProcessor.Exceptions.{Result, ok, raise, integrity_error}
use flagsmith_common.TaskProcessor.Settings.{Settings}
use flagsmith_common.TaskProcessor.Models.{Task, AbstractTaskRun, day}
use flagsmith_common.TaskProcessor.Database.{Database}
use flagsmith_common.TaskProcessor.Processor.{if_any}

-- HealthCheckModel.objects.create(uuid=...): the column is unique.
unfoldable pub create_health_check_model : String → Database → Result (Unit {0}) × Database
create_health_check_model uuid db =
    if any (λ other. str_eq other uuid) db.health_checks
    then (raise integrity_error, db)
    else (ok tt, record db { health_checks = uuid ∷ db.health_checks })

-- moment < now - timedelta(days=days), which does not hold of NULL
abbrev pub is_older : ℕ → ℕ → Option ℕ → Bool
is_older now days none = false
is_older now days (some moment) = ltb (moment + days * day) now

-- The query of clean_up_old_tasks.
abbrev pub is_old_task : Settings → ℕ → ℕ × Task → Bool
is_old_task settings now (k, t) =
    is_older now settings.task_delete_retention_days t.scheduled_for
    && (t.completed || (settings.task_delete_include_failed_tasks && leb 3 t.num_failures))

-- The rows of one DELETE. The subquery has no ORDER BY: here it takes the first rows.
abbrev pub batch : Settings → ℕ → Table Task → Table Task
batch settings now tasks =
    take settings.task_delete_batch_size (filter (is_old_task settings now) tasks)

abbrev pub is_kept : List ℕ → ℕ × Task → Bool
is_kept ks (k, t) = not (has_key k ks)

abbrev pub is_kept_run : List ℕ → ℕ × AbstractTaskRun → Bool
is_kept_run ks (k, run) = not (has_key run.task ks)

-- The runs go with their tasks.
unfoldable pub delete_tasks : List ℕ → Database → Database
unfolding filter
delete_tasks ks db = record db {
  tasks = filter (is_kept ks) db.tasks;
  task_runs = filter (is_kept_run ks) db.task_runs;
}

-- The loop: none if the fuel runs out. It ends with the first DELETE that deletes nothing, which is
-- the first that finds no task.
unfoldable pub delete_batches : Settings → ℕ → ℕ → Database → Option Database
unfolding delete_tasks
delete_batches settings now zero db = none
delete_batches settings now (suc fuel) db =
    let found = batch settings now db.tasks in
    let rest = delete_batches settings now fuel (delete_tasks (keys found) db) in
    if_any found rest (some db)

unfoldable pub clean_up_old_tasks : Settings → ℕ → ℕ → Database → Option Database
unfolding delete_batches
clean_up_old_tasks settings now fuel db =
    let deleted = delete_batches settings now fuel db in
    if settings.enable_clean_up_old_tasks then deleted else some db

abbrev pub is_old_run : Settings → ℕ → ℕ × AbstractTaskRun → Bool
is_old_run settings now (k, run) =
    is_older now settings.recurring_task_run_retention_days run.finished_at

unfoldable pub clean_up_old_recurring_task_runs : Settings → ℕ → Database → Database
unfolding filter
clean_up_old_recurring_task_runs settings now db =
    if settings.enable_clean_up_old_tasks
    then record db {
      recurring_task_runs =
          filter (λ row. not (is_old_run settings now row)) db.recurring_task_runs;
    }
    else db
