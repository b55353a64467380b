-- ===== src/TaskProcessor/Threads/Runs.antt =====
-- TaskRunner.run and TaskRunner.stop of task_processor/threads.py: the loop of a runner, for the rounds that
-- it is given.
use flagsmith_common.Base.{ℕ, Bool, false, String, some, List, [], ◌∷◌, if◌then◌else◌}
use flagsmith_common.TaskProcessor.Exceptions.{ok, raise, hang}
use flagsmith_common.TaskProcessor.Json.{Json}
use flagsmith_common.TaskProcessor.Settings.{Settings}
use flagsmith_common.TaskProcessor.Processor.{Surroundings, Occasion}
use flagsmith_common.TaskProcessor.Threads.{Databases, run_iteration, TaskRunner}

-- A round of the loop: whether stop() was called by then, the clock, and what surrounds the calls on each
-- database.
pub record Round (json : Json) : Type 0 where
  pub is_stopped : Bool
  pub checked_at : ℕ
  pub surroundings : String → Surroundings json
  pub occasion : String → Occasion json

abbrev pub checked : ℕ → TaskRunner → TaskRunner
checked now runner = record runner { last_checked_for_tasks = some now }

abbrev pub died : TaskRunner → TaskRunner
died runner = record runner { is_alive = false }

module _ (settings : Settings) (json : Json) (queue_pop_size : ℕ) where
  -- The thread ends when it is stopped, and at an exception that run_iteration lets through.
  unfoldable pub run : List (Round json) → TaskRunner → Databases → TaskRunner × Databases
  unfolding run_iteration
  run [] runner dbs = (runner, dbs)
  run (round ∷ rounds) runner dbs =
      let (result, dbs') =
        run_iteration settings json queue_pop_size round.surroundings round.occasion dbs in
      let now_checked = checked round.checked_at runner in
      let rest = run rounds now_checked dbs' in
      if round.is_stopped then (died runner, dbs) else elim result [
        | ok _ ↦ rest
        | raise _ ↦ (died now_checked, dbs')
        | hang ↦ (now_checked, dbs')
      ]
