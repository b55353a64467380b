-- ===== src/TaskProcessor/Processor/Batch.antt =====
-- run_tasks: a batch of tasks is picked, executed one after another and written back.
use flagsmith_common.Base.{ℕ, ◌+◌, Bool, none, List, [], ◌∷◌, ltb, if◌then◌else◌}
use flagsmith_common.Base.Table.{Table, update, insert}
use flagsmith_common.TaskProcessor.Exceptions.{Result, ok, raise, hang, value_error, ◌>>=◌}
use flagsmith_common.TaskProcessor.Json.{Json}
use flagsmith_common.TaskProcessor.Settings.{Settings}
use flagsmith_common.TaskProcessor.Models.{AbstractTaskRun, Task}
use flagsmith_common.TaskProcessor.Registry.{Registry}
use flagsmith_common.TaskProcessor.Database.{Database}
use flagsmith_common.TaskProcessor.Queue.{get_tasks_to_process}
use flagsmith_common.TaskProcessor.Processor.Single.{Execution, Finished, run_task, task_model}

-- What surrounds one call of run_tasks: the moment of the pick and the rows that others hold then,
-- the executions by key, and what the tasks and the other processes do to the database before the
-- results are written.
pub record Surroundings (json : Json) : Type 0 where
  pub registered_tasks : Registry
  pub busy : ℕ → Bool
  pub now : ℕ
  pub execution : ℕ → Execution json
  pub meanwhile : Database → Database

-- bulk_update(fields=["completed", "num_failures", "is_locked", "scheduled_for"])
abbrev pub store_result : Task → Task → Task
store_result task row = record row {
  base = record row.base { is_locked = task.is_locked };
  completed = task.completed;
  num_failures = task.num_failures;
  scheduled_for = task.scheduled_for;
}

unfoldable pub bulk_update : Table Task → Table Task → Table Task
unfolding update
bulk_update [] rows = rows
bulk_update ((k, task) ∷ executed) rows = bulk_update executed (update k (store_result task) rows)

-- Saves new runs under the next keys.
unfoldable pub bulk_create : List AbstractTaskRun → Database → Database
unfolding insert
bulk_create [] db = db
bulk_create (run ∷ runs) db =
    bulk_create runs
      (record db { next_id = db.next_id + 1; task_runs = insert db.next_id run db.task_runs })

-- The tasks and the runs of the loop, in its order. An exception ends the loop.
abbrev pub Executed : Type 0
Executed = Table Task × List AbstractTaskRun

abbrev pub add_finished : ℕ → Finished Task → Executed → Executed
add_finished k f (tasks, runs) = ((k, f.task) ∷ tasks, f.run ∷ runs)

unfoldable pub run_each :
    (settings : Settings) (json : Json) → Surroundings json → Table Task → Result Executed
unfolding run_task
run_each settings json s [] = ok ([], [])
run_each settings json s ((k, task) ∷ tasks) = do
  finished ← run_task settings json s.registered_tasks (s.execution k) k task none
  rest ← run_each settings json s tasks
  ok (add_finished k finished rest)

unfoldable pub write_back : Result Executed → Database → Result (List AbstractTaskRun) × Database
unfolding bulk_update bulk_create
write_back (ok (executed, runs)) db =
    (ok runs, bulk_create runs (record db { tasks = bulk_update executed db.tasks }))
write_back (raise e) db = (raise e, db)
write_back hang db = (hang, db)

-- `if tasks: ... return task_runs`, or the empty list.
abbrev pub if_any {ℓ} : {A : Type ℓ} → Table Task → A → A → A
if_any [] done idle = idle
if_any (_ ∷ _) done idle = done

unfoldable pub run_tasks :
    (settings : Settings) (json : Json)
    → Surroundings json
    → ℕ
    → Database
    → Result (List AbstractTaskRun) × Database
unfolding run_each write_back get_tasks_to_process
run_tasks settings json s num_tasks db =
    let (picked, rows) = get_tasks_to_process s.busy s.now num_tasks db.tasks in
    let db' = record db { tasks = rows } in
    let done = write_back (run_each settings json s picked) (s.meanwhile db') in
    if ltb num_tasks 1 then (raise value_error, db) else if_any picked done (ok [], db')
