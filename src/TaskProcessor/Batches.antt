-- ===== src/TaskProcessor/Batches.antt =====
-- What run_tasks leaves in the database, when it returns and when it raises.
pub mod Lost
use flagsmith_common.Base.{
  ℕ, suc, ◌+◌, ◌≡◌, refl, sym, ap, subst, ◌∙◌, ◌⊎◌, inl, inr, Bool, true, false, Option, none, some,
  arith, List, [], ◌∷◌, Bool-cases, if◌then◌else◌, ◌==◌, ==_iff, ltb, All, In, All-In, All_of_In,
  All-map, Option-cases,
}
use flagsmith_common.Base.Table.{Table, update, keys, has_key, All-update, update-sets}
use flagsmith_common.TaskProcessor.Exceptions.{Result, ok, raise, hang, >>=-elim, ◌>>=◌}
use flagsmith_common.TaskProcessor.Json.{Json}
use flagsmith_common.TaskProcessor.Settings.{Settings}
use flagsmith_common.TaskProcessor.Models.{Task, AbstractTaskRun, success, failure}
use flagsmith_common.TaskProcessor.Database.{Database}
use flagsmith_common.TaskProcessor.Queue.{get_tasks_to_process}
use flagsmith_common.TaskProcessor.Processor.{
  task_model, Finished, run_task, Surroundings, store_result, bulk_update, bulk_create, Executed,
  add_finished, run_each, write_back, run_tasks, if_any,
}
use flagsmith_common.TaskProcessor.Outcomes.{IsRecorded, run_task-IsRecorded}

-- `after` is what one execution makes of `before`: unlocked, and completed or with one failure more.
pub record IsDone (before after : Task) : Type 0 where
  pub unlocked : after.is_locked ≡ false
  pub verdict :
      (after.completed ≡ true) × (after.num_failures ≡ before.num_failures)
      ⊎ (after.completed ≡ before.completed) × (after.num_failures ≡ before.num_failures + 1)

-- Under this key stands what one execution makes of a task that was picked under it.
pub record IsWritten (picked : Table Task) (row : ℕ × Task) : Type 0 where
  pub before : Task
  pub was_picked : In (row.0, before) picked
  pub done : IsDone before row.1

-- An entry of the loop's result, which the bulk update is to write.
abbrev pub IsEntry : Table Task → ℕ × Task → Type 0
IsEntry picked (k, after) = (before : Task) × In (k, before) picked × IsDone before after

IsRecorded-IsDone : (t : Task) (f : Finished Task) → IsRecorded t f → IsDone t f.task
IsRecorded-IsDone t f h = ground arith

store_result-IsWritten :
    (picked : Table Task) (k : ℕ) (after row : Task)
    → IsEntry picked (k, after)
    → IsWritten picked (k, store_result after row)
store_result-IsWritten picked k after row (before, i, d) = record {
  before = before;
  was_picked = i;
  done = record { unlocked = d.unlocked; verdict = d.verdict };
}

module _ (picked : Table Task) where
  bulk_update-keep :
      (j : ℕ) (executed rows : Table Task)
      → All (IsEntry picked) executed
      → All (λ row. row.0 ≡ j → IsWritten picked row) rows
      → All (λ row. row.0 ≡ j → IsWritten picked row) (bulk_update executed rows)
  unfolding bulk_update
  bulk_update-keep j [] rows h r = r
  bulk_update-keep j ((k, after) ∷ executed) rows h r =
      bulk_update-keep j executed (update k (store_result after) rows) h.1 (
        All-update (λ row. row.0 ≡ j → IsWritten picked row) k (store_result after)
          (λ row _ _. store_result-IsWritten picked k after row h.0) rows r)

  bulk_update-reach :
      (j : ℕ) (executed rows : Table Task)
      → All (IsEntry picked) executed
      → has_key j (keys executed) ≡ true
      → All (λ row. row.0 ≡ j → IsWritten picked row) (bulk_update executed rows)
  unfolding bulk_update
  bulk_update-reach j [] rows h e = cc
  bulk_update-reach j ((k, after) ∷ executed) rows h e = elim (Bool-cases (k == j)) [
    | inl here ↦ bulk_update-keep j executed (update k (store_result after) rows) h.1 (
        rw (sym ((==_iff k j).0 here)) (
          update-sets (IsWritten picked) k (store_result after)
            (λ row. store_result-IsWritten picked k after row h.0) rows))
    | inr other ↦
        bulk_update-reach j executed (update k (store_result after) rows) h.1 (rw other at e)
  ]

  bulk_update-IsWritten :
      (executed rows : Table Task)
      → All (IsEntry picked) executed
      → All
          (λ row. has_key row.0 (keys executed) ≡ true → IsWritten picked row)
          (bulk_update executed rows)
  bulk_update-IsWritten executed rows h =
      All_of_In (λ row. has_key row.0 (keys executed) ≡ true → IsWritten picked row) _
        (λ row i e.
          All-In (λ r. r.0 ≡ row.0 → IsWritten picked r) row _
            (bulk_update-reach row.0 executed rows h e) i refl)

-- The loop executes the picked tasks, under the keys that they were picked under.
abbrev pub Entries : Table Task → Result Executed → Type 0
Entries picked (ok (executed, runs)) = All (IsEntry picked) executed × (keys executed ≡ keys picked)
Entries picked _ = Unit

IsEntry-cons :
    (row : ℕ × Task) (picked : Table Task) (x : ℕ × Task)
    → IsEntry picked x
    → IsEntry (row ∷ picked) x
IsEntry-cons row picked (k, after) (before, i, d) = (before, inr i, d)

module _ (settings : Settings) (json : Json) (s : Surroundings json) where
  add_finished-Entries :
      (k : ℕ) (task : Task) (tasks : Table Task) (finished : Finished Task) (rest : Executed)
      → IsDone task finished.task
      → Entries tasks (ok rest)
      → Entries ((k, task) ∷ tasks) (ok (add_finished k finished rest))
  add_finished-Entries k task tasks finished (executed, runs) d h = (
    ((task, inl refl, d), All-map (IsEntry-cons (k, task) tasks) executed h.0),
    ap (λ ks. k ∷ ks) h.1,
  )

  pub run_each-Entries : (picked : Table Task) → Entries picked (run_each settings json s picked)
  unfolding run_each
  run_each-Entries [] = (tt, refl)
  run_each-Entries ((k, task) ∷ tasks) =
      let first = run_task settings json s.registered_tasks (s.execution k) k task none in
      let others = run_each settings json s tasks in
      let ih = run_each-Entries tasks in
      >>=-elim (Entries ((k, task) ∷ tasks)) first
        (λ finished. others >>= λ rest. ok (add_finished k finished rest))
        (λ finished ran.
          >>=-elim (Entries ((k, task) ∷ tasks)) others (λ rest. ok (add_finished k finished rest))
            (λ rest e.
              add_finished-Entries k task tasks finished rest
                (IsRecorded-IsDone task finished (
                  run_task-IsRecorded settings json s.registered_tasks (s.execution k) k task none
                    finished ran))
                (rw e at ih))
            (λ e. tt) tt)
        (λ e. tt) tt

-- What is to hold of the database once the batch is written.
abbrev IsWrittenBack : Table Task → Result (List AbstractTaskRun) × Database → Type 0
IsWrittenBack picked (ok runs, db) =
    All (λ row. has_key row.0 (keys picked) ≡ true → IsWritten picked row) db.tasks
IsWrittenBack picked (_, db) = Unit

pub tasks-bulk_create :
    (runs : List AbstractTaskRun) (db : Database) → (bulk_create runs db).tasks ≡ db.tasks
unfolding bulk_create
tasks-bulk_create [] db = refl
tasks-bulk_create (run ∷ runs) db = tasks-bulk_create runs _

write_back-IsWrittenBack :
    (picked : Table Task) (r : Result Executed) (db : Database)
    → Entries picked r
    → IsWrittenBack picked (write_back r db)
unfolding write_back
write_back-IsWrittenBack picked (ok (executed, runs)) db h =
    rw (tasks-bulk_create, ← h.1) (bulk_update-IsWritten picked executed db.tasks h.0)
write_back-IsWrittenBack picked (raise e) db h = tt
write_back-IsWrittenBack picked hang db h = tt

if_any-IsWrittenBack :
    (picked : Table Task) (db : Database) (done : Result (List AbstractTaskRun) × Database)
    → IsWrittenBack picked done
    → IsWrittenBack picked (if_any picked done (ok [], db))
if_any-IsWrittenBack [] db done h =
    All_of_In (λ row. false ≡ true → IsWritten [] row) db.tasks (λ row i e. cc)
if_any-IsWrittenBack (row ∷ picked) db done h = h

abbrev Returned : Table Task → Database → Type 0
Returned picked db' =
    All (λ row. has_key row.0 (keys picked) ≡ true → IsWritten picked row) db'.tasks

run_tasks-Returned :
    (settings : Settings) (json : Json) (s : Surroundings json) (num_tasks : ℕ) (db db' : Database)
    (runs : List AbstractTaskRun)
    → run_tasks settings json s num_tasks db ≡ (ok runs, db')
    → Returned (get_tasks_to_process s.busy s.now num_tasks db.tasks).0 db'
unfolding run_tasks
run_tasks-Returned settings json s num_tasks db db' runs h =
    let (picked, rows) = get_tasks_to_process s.busy s.now num_tasks db.tasks in
    let left = record db { tasks = rows } in
    subst (IsWrittenBack picked) h (elim (Bool-cases (ltb num_tasks 1)) [
      | inl e ↦ rw e tt
      | inr e ↦ rw e (
          if_any-IsWrittenBack picked left
            (write_back (run_each settings json s picked) (s.meanwhile left))
            (write_back-IsWrittenBack picked (run_each settings json s picked) (s.meanwhile left)
              (run_each-Entries settings json s picked)))
    ])

-- When run_tasks returns, every row under the key of a task that it picked is what one execution
-- makes of that task: unlocked, and completed or with one failure more. This holds whatever the
-- tasks themselves and the other workers did to the database in the meantime.
pub run_tasks-IsWritten :
    (settings : Settings) (json : Json) (s : Surroundings json) (num_tasks : ℕ) (db db' : Database)
    (runs : List AbstractTaskRun) (row : ℕ × Task)
    → run_tasks settings json s num_tasks db ≡ (ok runs, db')
    → In row db'.tasks
    → has_key row.0 (keys (get_tasks_to_process s.busy s.now num_tasks db.tasks).0) ≡ true
    → IsWritten (get_tasks_to_process s.busy s.now num_tasks db.tasks).0 row
run_tasks-IsWritten settings json s num_tasks db db' runs row h i k =
    let picked = (get_tasks_to_process s.busy s.now num_tasks db.tasks).0 in
    All-In (λ r. has_key r.0 (keys picked) ≡ true → IsWritten picked r) row db'.tasks
      (run_tasks-Returned settings json s num_tasks db db' runs h) i k
