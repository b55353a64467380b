-- ===== src/TaskProcessor/Threads/Survival.antt =====
-- The proofs on runners that stay alive.
use flagsmith_common.Base.{
  ℕ, ◌+◌, ◌*◌, ◌≤◌, ◌≡◌, refl, Bool, true, false, Option, some, List, [], ◌∷◌, All, arith,
  if◌then◌else◌, String,
}
use flagsmith_common.TaskProcessor.Exceptions.{is_caught, Result, ok, raise, hang}
use flagsmith_common.TaskProcessor.Json.{Json}
use flagsmith_common.TaskProcessor.Settings.{Settings}
use flagsmith_common.TaskProcessor.Database.{Database}
use flagsmith_common.TaskProcessor.Processor.{Surroundings, Occasion, run_tasks, run_recurring_task}
use flagsmith_common.TaskProcessor.Processor.{task_model, recurring_model}
use flagsmith_common.TaskProcessor.Threads.Batches.{run_tasks-IsSafe, run_recurring_task-IsSafe}
use flagsmith_common.TaskProcessor.Threads.Calls.{IsSafe, AllComeBack}
use flagsmith_common.TaskProcessor.Threads.{
  forget, put, runs_recurring, Databases, visit, visit_each, run_iteration, TaskRunner,
  get_unhealthy_threads,
}
use flagsmith_common.TaskProcessor.Threads.Runs.{Round, checked, run}

-- What a visit makes of the two calls, if both are safe.
abbrev chosen :
    {A B : Type 0} → Bool → Result A → Result B → Database → Database → Result (Unit {0}) × Database
chosen b r r' db db' = elim r [
  | ok a ↦ if b then (forget r', db') else (ok tt, db)
  | raise e ↦ (raise e, db)
  | hang ↦ (hang, db)
]

chosen-IsSafe :
    {A B : Type 0} (b : Bool) (r : Result A) (r' : Result B) (db db' : Database)
    → IsSafe r
    → IsSafe r'
    → IsSafe (chosen b r r' db db').0
chosen-IsSafe true (ok a) (ok a') db db' h h' = tt
chosen-IsSafe true (ok a) (raise e) db db' h h' = h'
chosen-IsSafe true (ok a) hang db db' h h' = h'
chosen-IsSafe false (ok a) r' db db' h h' = tt
chosen-IsSafe b (raise e) r' db db' h h' = h
chosen-IsSafe b hang r' db db' h h' = h

-- What the loop makes of a visit and of the rest.
abbrev followed :
    Result (Unit {0}) → Result (Unit {0}) × Databases → Databases → Result (Unit {0}) × Databases
followed r rest dbs' = elim r [
  | ok _ ↦ rest
  | raise e ↦ if is_caught e then rest else (raise e, dbs')
  | hang ↦ (hang, dbs')
]

followed-ok :
    (r : Result (Unit {0})) (rest : Result (Unit {0}) × Databases) (dbs' : Databases)
    → IsSafe r
    → rest.0 ≡ ok tt
    → (followed r rest dbs').0 ≡ ok tt
followed-ok (ok a) rest dbs' h e = e
followed-ok (raise x) rest dbs' h e = rw h e
followed-ok hang rest dbs' h e = absurd h

module _ (settings : Settings) (json : Json) (queue_pop_size : ℕ) where
  module _ (s : String → Surroundings json) (o : String → Occasion json)
      (h : (name : String) (k : ℕ) → AllComeBack ((s name).execution k))
      (h' : (name : String) → AllComeBack (o name).execution) where
    visit-IsSafe :
        (name : String) (db : Database) → IsSafe (visit settings json queue_pop_size s o name db).0
    unfolding visit
    visit-IsSafe name db =
        let (r, db') = run_tasks settings json (s name) queue_pop_size db in
        let (r', db'') = run_recurring_task settings json (o name) db' in
        chosen-IsSafe (runs_recurring settings.task_processor_databases name) r r' db' db''
          (run_tasks-IsSafe settings json (s name) queue_pop_size db (h name))
          (run_recurring_task-IsSafe settings json (o name) (h' name) db')

    visit_each-ok :
        (names : List String) (dbs : Databases)
        → (visit_each settings json queue_pop_size s o names dbs).0 ≡ ok tt
    unfolding visit_each
    visit_each-ok [] dbs = refl
    visit_each-ok (name ∷ names) dbs =
        let (r, db) = visit settings json queue_pop_size s o name (dbs name) in
        let dbs' = put name db dbs in
        followed-ok r (visit_each settings json queue_pop_size s o names dbs') dbs'
          (visit-IsSafe name (dbs name)) (visit_each-ok names dbs')

  run_iteration-ok :
      (round : Round json) (dbs : Databases)
      → ((name : String) (k : ℕ) → AllComeBack ((round.surroundings name).execution k))
      → ((name : String) → AllComeBack (round.occasion name).execution)
      → (run_iteration settings json queue_pop_size round.surroundings round.occasion dbs).0 ≡ ok tt
  unfolding run_iteration
  run_iteration-ok round dbs h h' =
      visit_each-ok round.surroundings round.occasion h h' settings.task_processor_databases dbs

  -- Every call of a task's function comes back in this round, and stop() was not called by then.
  pub record IsOrdinary (round : Round json) : Type 0 where
    pub is_running : round.is_stopped ≡ false
    pub tasks : (name : String) (k : ℕ) → AllComeBack ((round.surroundings name).execution k)
    pub recurring_tasks : (name : String) → AllComeBack (round.occasion name).execution

  -- When the last of these rounds checked for tasks.
  abbrev pub last_check : Option ℕ → List (Round json) → Option ℕ
  last_check before [] = before
  last_check before (round ∷ rounds) = last_check (some round.checked_at) rounds

  run_lem :
      (rounds : List (Round json)) (runner : TaskRunner) (dbs : Databases)
      → All IsOrdinary rounds
      → (run settings json queue_pop_size rounds runner dbs).0
        ≡ record runner { last_checked_for_tasks = last_check runner.last_checked_for_tasks rounds }
  unfolding run
  run_lem [] runner dbs h = refl
  run_lem (round ∷ rounds) runner dbs (h, hs) =
      let e = run_iteration-ok round dbs h.tasks h.recurring_tasks in
      rw (run, h.is_running, e)
        (run_lem rounds (checked round.checked_at runner)
          (run_iteration settings json queue_pop_size round.surroundings round.occasion dbs).1 hs)

  -- A runner stays alive and healthy whatever its databases hold, also tasks that are not registered or do
  -- not parse, as long as it is not stopped, the functions that it calls come back, by an ordinary exception
  -- at most, and its last round is no longer ago than the limit of the coordinator.
  pub run_healthy :
      (round : Round json) (rounds : List (Round json)) (runner : TaskRunner) (dbs : Databases)
      (last now limit : ℕ)
      → All IsOrdinary (round ∷ rounds)
      → runner.is_alive ≡ true
      → last_check (some round.checked_at) rounds ≡ some last
      → now ≤ last + limit * 1_000
      → get_unhealthy_threads limit now
          ((run settings json queue_pop_size (round ∷ rounds) runner dbs).0 ∷ [])
        ≡ []
  unfolding get_unhealthy_threads
  run_healthy round rounds runner dbs last now limit h alive e soon =
      rw (run_lem (round ∷ rounds) runner dbs h, alive, e) (ground arith)
