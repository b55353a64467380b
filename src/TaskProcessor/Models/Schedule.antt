-- ===== src/TaskProcessor/Models/Schedule.antt =====
-- RecurringTask.should_execute.
use Prim.Native.Nat.{◌%◌}
use flagsmith_common.Base.{
  ℕ, ◌+◌, ◌-◌, ◌*◌, Bool, true, false, Option, none, some, List, [], ◌∷◌, ltb, leb, ◌==◌, length,
  filter, if◌then◌else◌,
}
use flagsmith_common.Base.Table.{Table}
use flagsmith_common.TaskProcessor.Models.Fields.{
  AbstractTaskRun, TaskResult, success, failure, day, hour,
}
use flagsmith_common.TaskProcessor.Models.Recurring.{RecurringTask}

abbrev pub runs_of : ℕ → Table AbstractTaskRun → List AbstractTaskRun
runs_of pk [] = []
runs_of pk ((k, run) ∷ runs) =
    let rest = runs_of pk runs in if run.task == pk then run ∷ rest else rest

-- order_by("-started_at").first()
unfoldable pub last_run : List AbstractTaskRun → Option AbstractTaskRun
last_run [] = none
last_run (r ∷ rs) = elim (last_run rs) [
  | none ↦ some r
  | some s ↦ if ltb r.started_at s.started_at then some s else some r
]

-- The time of day `first_run_time` on the day of `now`.
abbrev pub first_run_today : ℕ → ℕ → ℕ
first_run_today first_run_time now = now - now % day + first_run_time

-- The branch for a task that has never run. Differences of datetimes are compared as sums.
abbrev first_execution : Option ℕ → ℕ → Bool
first_execution none now = true
first_execution (some time) now =
    let today = first_run_today time now in
    if ltb (today + 12 * hour) now
    then false
    else if ltb (now + 12 * hour) today
    then true
    else leb today now

abbrev pub is_success : Option TaskResult → Bool
is_success none = false
is_success (some success) = true
is_success (some failure) = false

-- The runs with started_at >= now - run_every.
abbrev pub recent : ℕ → ℕ → List AbstractTaskRun → List AbstractTaskRun
recent run_every now = filter (λ r. leb now (r.started_at + run_every))

-- The clock is read twice: `now`, and `later` where the last run's age is tested.
abbrev next_execution : RecurringTask → List AbstractTaskRun → AbstractTaskRun → ℕ → ℕ → Bool
next_execution t runs last now later =
    if leb (last.started_at + t.run_every) later
    then true
    else if is_success last.result
    then false
    else leb (length (recent t.run_every now runs)) 3

-- `runs` are the runs of this task.
unfoldable pub should_execute : RecurringTask → List AbstractTaskRun → ℕ → ℕ → Bool
unfolding last_run filter
should_execute t runs now later = elim (last_run runs) [
  | none ↦ first_execution t.first_run_time now
  | some last ↦ next_execution t runs last now later
]
