-- ===== src/TaskProcessor/Processor/Recurrence.antt =====
-- run_recurring_task: at most one recurring task is picked, executed if it is time, and saved.
use flagsmith_common.Base.{
  ℕ, ◌+◌, ◌*◌, Bool, not, Option, none, some, List, ltb, ◌==◌, map, filter, if◌then◌else◌, String,
}
use flagsmith_common.Base.Table.{get, update, insert, delete}
use flagsmith_common.TaskProcessor.Exceptions.{Result, ok, raise, hang, database_error}
use flagsmith_common.TaskProcessor.Json.{Json}
use flagsmith_common.TaskProcessor.Settings.{Settings}
use flagsmith_common.TaskProcessor.Models.{
  AbstractTaskRun, RecurringTask, unlock_recurring, reconcile_abandoned_run, is_task_registered,
  should_execute, runs_of, minute,
}
use flagsmith_common.TaskProcessor.Registry.{Registry}
use flagsmith_common.TaskProcessor.Database.{Database}
use flagsmith_common.TaskProcessor.Queue.{get_task_to_process}
use flagsmith_common.TaskProcessor.Processor.Single.{
  Execution, Finished, run_task, recurring_model, new_run,
}

abbrev pub unregistered_recurring_task_grace_period : ℕ
unregistered_recurring_task_grace_period = 30 * minute

-- What surrounds one call: the rows that others hold at the pick, the readings of the clock in
-- their order, the execution, and what happens to the database between the run's two saves.
pub record Occasion (json : Json) : Type 0 where
  pub registered_tasks : Registry
  pub busy : ℕ → Bool
  pub picked_at : ℕ
  pub reconciled_at : ℕ
  pub age_read_at : ℕ
  pub tested_at : ℕ
  pub tested_later_at : ℕ
  pub execution : Execution json
  pub meanwhile : Database → Database

abbrev pub Outcome : Type 0
Outcome = Result (Option AbstractTaskRun) × Database

abbrev pub names : Registry → List String
names registered_tasks = map (λ entry. entry.0) registered_tasks

-- task.save(update_fields=["is_locked", "locked_at", "is_disabled", "num_consecutive_failures"])
abbrev pub store_recurring : RecurringTask → RecurringTask → RecurringTask
store_recurring task row = record row {
  base = record row.base { is_locked = task.is_locked };
  locked_at = task.locked_at;
  is_disabled = task.is_disabled;
  num_consecutive_failures = task.num_consecutive_failures;
}

-- A save with update_fields raises if its row is gone. On success the caller goes on with `next`.
unfoldable pub save_recurring : ℕ → RecurringTask → (Database → Outcome) → Database → Outcome
unfolding get update
save_recurring k task next db = elim (get k db.recurring_tasks) [
  | none ↦ (raise database_error, db)
  | some _ ↦
      next (record db { recurring_tasks = update k (store_recurring task) db.recurring_tasks })
]

-- task_run.save(): an UPDATE, or an INSERT if the row is gone.
unfoldable pub save_run : ℕ → AbstractTaskRun → Database → Database
unfolding get update insert
save_run j run db = elim (get j db.recurring_task_runs) [
  | none ↦ record db { recurring_task_runs = insert j run db.recurring_task_runs }
  | some _ ↦ record db { recurring_task_runs = update j (λ _. run) db.recurring_task_runs }
]

-- task.delete(): the runs go with their task.
unfoldable pub delete_recurring : ℕ → Database → Database
unfolding delete filter
delete_recurring k db = record db {
  recurring_tasks = delete k db.recurring_tasks;
  recurring_task_runs = filter (λ row. not (row.1.task == k)) db.recurring_task_runs;
}

-- The run is inserted before the task is executed.
unfoldable pub begin_run : AbstractTaskRun → Database → Database
unfolding insert
begin_run run db = record db {
  next_id = db.next_id + 1;
  recurring_task_runs = insert db.next_id run db.recurring_task_runs;
}

unfoldable pub finish_run : ℕ → ℕ → Result (Finished RecurringTask) → Database → Outcome
unfolding save_recurring save_run
finish_run k j (ok finished) db =
    save_recurring k finished.task (λ db'. (ok (some finished.run), save_run j finished.run db')) db
finish_run k j (raise e) db = (raise e, db)
finish_run k j hang db = (hang, db)

module _ (settings : Settings) (json : Json) (o : Occasion json) where
  unfoldable pub execute_recurring : ℕ → RecurringTask → Database → Outcome
  unfolding begin_run finish_run run_task
  execute_recurring k task db =
      let run = new_run o.execution.started_at k in
      let finished = run_task settings json o.registered_tasks o.execution k task (some run) in
      finish_run k db.next_id finished (o.meanwhile (begin_run run db))

  -- A task that no code registers: it is deleted once it is old enough. Until then its row stays
  -- as it was picked.
  unfoldable pub drop_unregistered : ℕ → RecurringTask → Database → Outcome
  unfolding delete_recurring
  drop_unregistered k task db = (
    ok none,
    if ltb (task.created_at + unregistered_recurring_task_grace_period) o.age_read_at
        then delete_recurring k db
        else db,
  )

  -- What follows the pick.
  unfoldable pub process_recurring : ℕ → RecurringTask → Database → Outcome
  unfolding execute_recurring drop_unregistered save_recurring reconcile_abandoned_run
      is_task_registered should_execute unlock_recurring
  process_recurring k task db =
      let runs = reconcile_abandoned_run k o.reconciled_at db.recurring_task_runs in
      let db' = record db { recurring_task_runs = runs } in
      if not (is_task_registered (names o.registered_tasks) task)
      then drop_unregistered k task db'
      else if should_execute task (runs_of k runs) o.tested_at o.tested_later_at
      then execute_recurring k task db'
      else save_recurring k (unlock_recurring task) (λ db''. (ok none, db'')) db'

  unfoldable pub run_recurring_task : Database → Outcome
  unfolding get_task_to_process process_recurring
  run_recurring_task db =
      let (picked, rows) = get_task_to_process o.busy o.picked_at db.recurring_tasks in
      let db' = record db { recurring_tasks = rows } in
      elim picked [ none ↦ (ok none, db') | some (k, task) ↦ process_recurring k task db' ]
