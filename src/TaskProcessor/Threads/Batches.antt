-- ===== src/TaskProcessor/Threads/Batches.antt =====
-- The proofs on calls of run_tasks and of run_recurring_task that come back.
use flagsmith_common.Base.{
  ℕ, ◌≡◌, refl, inl, inr, Bool-cases, Option, none, some, List, [], ◌∷◌, ltb,
}
use flagsmith_common.Base.Table.{Table, get}
use flagsmith_common.TaskProcessor.Exceptions.{Result, ok, raise, hang}
use flagsmith_common.TaskProcessor.Json.{Json}
use flagsmith_common.TaskProcessor.Settings.{Settings}
use flagsmith_common.TaskProcessor.Models.{AbstractTaskRun, Task, RecurringTask}
use flagsmith_common.TaskProcessor.Database.{Database}
use flagsmith_common.TaskProcessor.Processor.{
  Finished, run_task, Surroundings, Occasion, Executed, Outcome, save_recurring, finish_run,
  process_recurring, execute_recurring, drop_unregistered, run_each, write_back, run_tasks, if_any,
  run_recurring_task,
}
use flagsmith_common.TaskProcessor.Queue.{get_tasks_to_process, get_task_to_process}
use flagsmith_common.TaskProcessor.Models.{
  unlock_recurring, reconcile_abandoned_run, is_task_registered, should_execute, runs_of,
}
use flagsmith_common.TaskProcessor.Processor.{
  task_model, recurring_model, new_run, names, save_run, begin_run,
}
use flagsmith_common.TaskProcessor.Threads.Calls.{IsSafe, IsSafe->>=, AllComeBack, run_task-IsSafe}

module _ (settings : Settings) (json : Json) where
  run_each-IsSafe :
      (s : Surroundings json) (tasks : Table Task)
      → ((k : ℕ) → AllComeBack (s.execution k))
      → IsSafe (run_each settings json s tasks)
  unfolding run_each
  run_each-IsSafe s [] h = tt
  run_each-IsSafe s ((k, task) ∷ tasks) h =
      IsSafe->>= (run_task settings json s.registered_tasks (s.execution k) k task none) _
        (run_task-IsSafe settings json s.registered_tasks (s.execution k) k task none (h k))
        (λ finished.
          IsSafe->>= (run_each settings json s tasks) _ (run_each-IsSafe s tasks h) (λ rest. tt))

  write_back-IsSafe : (r : Result Executed) (db : Database) → IsSafe r → IsSafe (write_back r db).0
  unfolding write_back
  write_back-IsSafe (ok (executed, runs)) db h = tt
  write_back-IsSafe (raise e) db h = h
  write_back-IsSafe hang db h = h

  if_any-IsSafe :
      (picked : Table Task) (done idle : Result (List AbstractTaskRun) × Database)
      → IsSafe done.0
      → IsSafe idle.0
      → IsSafe (if_any picked done idle).0
  if_any-IsSafe [] done idle h k = k
  if_any-IsSafe (row ∷ picked) done idle h k = h

  pub run_tasks-IsSafe :
      (s : Surroundings json) (num_tasks : ℕ) (db : Database)
      → ((k : ℕ) → AllComeBack (s.execution k))
      → IsSafe (run_tasks settings json s num_tasks db).0
  unfolding run_tasks
  run_tasks-IsSafe s num_tasks db h = elim (Bool-cases (ltb num_tasks 1)) [
    | inl e ↦ rw (run_tasks, e) refl
    | inr e ↦
        let (picked, rows) = get_tasks_to_process s.busy s.now num_tasks db.tasks in
        let left = record db { tasks = rows } in
        let done = write_back (run_each settings json s picked) (s.meanwhile left) in
        rw (run_tasks, e)
          (if_any-IsSafe picked done (ok [], left)
            (write_back-IsSafe (run_each settings json s picked) (s.meanwhile left)
              (run_each-IsSafe s picked h))
            tt)
  ]

  save_recurring-IsSafe :
      (k : ℕ) (task : RecurringTask) (next : Database → Outcome) (db : Database)
      → ((db' : Database) → IsSafe (next db').0)
      → IsSafe (save_recurring k task next db).0
  unfolding save_recurring
  save_recurring-IsSafe k task next db h = go (get k db.recurring_tasks) refl
    where
      go :
          (row : Option RecurringTask)
          → get k db.recurring_tasks ≡ row
          → IsSafe (save_recurring k task next db).0
      go none e = rw (save_recurring, e) refl
      go (some row) e = rw (save_recurring, e) (h _)

  finish_run-IsSafe :
      (k j : ℕ) (r : Result (Finished RecurringTask)) (db : Database)
      → IsSafe r
      → IsSafe (finish_run k j r db).0
  unfolding finish_run
  finish_run-IsSafe k j (ok finished) db h =
      save_recurring-IsSafe k finished.task
        (λ db'. (ok (some finished.run), save_run j finished.run db')) db (λ db'. tt)
  finish_run-IsSafe k j (raise e) db h = h
  finish_run-IsSafe k j hang db h = h

  module _ (o : Occasion json) (h : AllComeBack o.execution) where
    process_recurring-IsSafe :
        (k : ℕ) (task : RecurringTask) (db : Database)
        → IsSafe (process_recurring settings json o k task db).0
    unfolding process_recurring execute_recurring drop_unregistered
    process_recurring-IsSafe k task db =
        let runs = reconcile_abandoned_run k o.reconciled_at db.recurring_task_runs in
        let db' = record db { recurring_task_runs = runs } in
        elim (Bool-cases (is_task_registered (names o.registered_tasks) task)) [
          | inr e ↦ rw (process_recurring, e) tt
          | inl e ↦
              elim (Bool-cases
                (should_execute task (runs_of k runs) o.tested_at o.tested_later_at)) [
                  | inl f ↦
                      let run = new_run o.execution.started_at k in
                      rw (process_recurring, e, f)
                        (finish_run-IsSafe k db'.next_id
                          (run_task settings json o.registered_tasks o.execution k task (some run))
                          (o.meanwhile (begin_run run db'))
                          (run_task-IsSafe settings json o.registered_tasks o.execution k task
                            (some run) h))
                  | inr f ↦
                      rw (process_recurring, e, f)
                        (save_recurring-IsSafe k (unlock_recurring task) (λ db''. (ok none, db''))
                          db' (λ db''. tt))
                ]
        ]

    pub run_recurring_task-IsSafe :
        (db : Database) → IsSafe (run_recurring_task settings json o db).0
    unfolding run_recurring_task
    run_recurring_task-IsSafe db =
        go (get_task_to_process o.busy o.picked_at db.recurring_tasks).0 refl
      where
        go :
            (picked : Option (ℕ × RecurringTask))
            → (get_task_to_process o.busy o.picked_at db.recurring_tasks).0 ≡ picked
            → IsSafe (run_recurring_task settings json o db).0
        go none e = rw (run_recurring_task, e) tt
        go (some (k, task)) e =
            rw (run_recurring_task, e)
              (process_recurring-IsSafe k task (record db {
                recurring_tasks = (get_task_to_process o.busy o.picked_at db.recurring_tasks).1;
              }))
