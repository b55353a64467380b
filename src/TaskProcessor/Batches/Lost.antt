-- ===== src/TaskProcessor/Batches/Lost.antt =====
-- A batch that run_tasks gives up: an exception outside the try statement of _run_task.
use flagsmith_common.Base.{
  ℕ, ◌<◌, ◌≡◌, refl, sym, ap, ◌∙◌, inl, inr, Bool, false, none, arith, List, [], ◌∷◌, Bool-cases,
  ltb, In,
}
use flagsmith_common.Base.Table.{Table, keys}
use flagsmith_common.TaskProcessor.Exceptions.{Result, ok, raise, hang, >>=-elim, ◌>>=◌}
use flagsmith_common.TaskProcessor.Json.{Json}
use flagsmith_common.TaskProcessor.Settings.{Settings}
use flagsmith_common.TaskProcessor.Models.{Task, AbstractTaskRun}
use flagsmith_common.TaskProcessor.Registry.{Registry, lookup, get_task}
use flagsmith_common.TaskProcessor.Database.{Database}
use flagsmith_common.TaskProcessor.Queue.{get_tasks_to_process}
use flagsmith_common.TaskProcessor.Queue.Locking.{
  AllLocked, Avoids, pick-left, lock_keys-AllLocked, pick-Avoids,
}
use flagsmith_common.TaskProcessor.Processor.{
  task_model, Execution, run_task, Surroundings, Executed, add_finished, if_any, run_each,
  write_back, run_tasks,
}

abbrev pub Fails : {A : Type 0} → Result A → Type 0
Fails {A} r = (a : A) → r ≡ ok a → ⊥

module _ (settings : Settings) (json : Json) where
  run_task-Fails :
      (registered_tasks : Registry) (x : Execution json) (k : ℕ) (task : Task)
      → lookup task.task_identifier registered_tasks ≡ none
      → Fails (run_task settings json registered_tasks x k task none)
  unfolding run_task get_task
  run_task-Fails registered_tasks x k task unknown f h =
      elim (Bool-cases settings.task_processor_mode) [
        | inl on ↦ let h' = rw (on, unknown) at h in cc
        | inr off ↦ let h' = rw off at h in cc
      ]

  run_each-Fails :
      (s : Surroundings json) (k : ℕ) (task : Task) (picked : Table Task)
      → In (k, task) picked
      → lookup task.task_identifier s.registered_tasks ≡ none
      → Fails (run_each settings json s picked)
  unfolding run_each
  run_each-Fails s k task [] i unknown = absurd i
  run_each-Fails s k task ((j, t) ∷ picked) i unknown =
      let first = run_task settings json s.registered_tasks (s.execution j) j t none in
      let others = run_each settings json s picked in
      >>=-elim Fails first (λ f. others >>= λ rest. ok (add_finished j f rest))
        (λ f ran. elim i [
          | inl e ↦ absurd (
              run_task-Fails s.registered_tasks (s.execution j) j t
                (sym (ap (λ (r : ℕ × Task). lookup r.1.task_identifier s.registered_tasks) e)
                  ∙ unknown)
                f ran)
          | inr i' ↦
              >>=-elim Fails others (λ rest. ok (add_finished j f rest))
                (λ rest e. absurd (run_each-Fails s k task picked i' unknown rest e)) (λ e a h. cc)
                (λ a h. cc)
        ])
        (λ e a h. cc) (λ a h. cc)

-- What a batch that fails leaves behind: no result, and the rows of the pick still locked.
abbrev IsStranded : Table Task → Result (List AbstractTaskRun) × Database → Type 0
IsStranded picked (r, db) = Fails r × AllLocked (keys picked) db.tasks

write_back-IsStranded :
    (picked : Table Task) (r : Result Executed) (db : Database)
    → Fails r
    → AllLocked (keys picked) db.tasks
    → IsStranded picked (write_back r db)
unfolding write_back
write_back-IsStranded picked (ok executed) db f h = absurd (f executed refl)
write_back-IsStranded picked (raise e) db f h = ((λ a p. cc), h)
write_back-IsStranded picked hang db f h = ((λ a p. cc), h)

if_any-IsStranded :
    (row : ℕ × Task) (picked : Table Task) (done idle : Result (List AbstractTaskRun) × Database)
    → In row picked
    → IsStranded picked done
    → IsStranded picked (if_any picked done idle)
if_any-IsStranded row [] done idle i h = absurd i
if_any-IsStranded row (other ∷ picked) done idle i h = h

module _ (settings : Settings) (json : Json) (s : Surroundings json) (num_tasks : ℕ) (db : Database)
    (quiet : (d : Database) → (s.meanwhile d).tasks ≡ d.tasks) where
  abbrev pick : Table Task × Table Task
  pick = get_tasks_to_process s.busy s.now num_tasks db.tasks

  left-AllLocked : AllLocked (keys pick.0) pick.1
  left-AllLocked =
      rw (pick-left s.busy s.now num_tasks db.tasks) (lock_keys-AllLocked (keys pick.0) db.tasks)

  run_tasks-IsStranded :
      (k : ℕ) (task : Task)
      → 0 < num_tasks
      → In (k, task) pick.0
      → lookup task.task_identifier s.registered_tasks ≡ none
      → IsStranded pick.0 (run_tasks settings json s num_tasks db)
  unfolding run_tasks
  run_tasks-IsStranded k task positive i unknown =
      let left = record db { tasks = pick.1 } in
      let r = run_each settings json s pick.0 in
      let e : ltb num_tasks 1 ≡ false = ground arith in
      rw e (
        if_any-IsStranded (k, task) pick.0 (write_back r (s.meanwhile left)) (ok [], left) i
          (write_back-IsStranded pick.0 r (s.meanwhile left)
            (run_each-Fails settings json s k task pick.0 i unknown)
            (rw (quiet left) left-AllLocked)))

  -- If one task of a batch is not registered, run_tasks returns no result, also for the tasks that it
  -- has executed; every task of the batch stays locked, and no later pick returns one of them. (The
  -- tasks themselves and the other workers leave the table of tasks alone while the batch runs.)
  pub unregistered_strands_batch :
      (k : ℕ) (task : Task)
      → 0 < num_tasks
      → In (k, task) (get_tasks_to_process s.busy s.now num_tasks db.tasks).0
      → lookup task.task_identifier s.registered_tasks ≡ none
      → let picked = (get_tasks_to_process s.busy s.now num_tasks db.tasks).0 in
        let (r, db') = run_tasks settings json s num_tasks db in
        Fails r
        × AllLocked (keys picked) db'.tasks
        × ((busy : ℕ → Bool) (now n : ℕ)
            → Avoids (keys picked) (get_tasks_to_process busy now n db'.tasks).0)
  unregistered_strands_batch k task positive i unknown =
      let (fails, locked) = run_tasks-IsStranded k task positive i unknown in
      (
        fails,
        locked,
        λ busy now n.
            pick-Avoids (keys pick.0) busy now n (run_tasks settings json s num_tasks db).1.tasks
              locked,
      )
