-- ===== src/TaskProcessor/Recurring/Timing.antt =====
-- When should_execute says that it is time.
use Prim.Native.Nat.{◌%◌}
use flagsmith_common.Base.{ℕ, ◌+◌, ◌-◌, ◌*◌, ◌<◌, ◌≡◌, ◌≢◌, some, [], arith, ltb}
use flagsmith_common.TaskProcessor.Models.{RecurringTask, should_execute, day, hour}

-- How long ago it was `time` o'clock for the last time.
abbrev pub since_time_of_day : ℕ → ℕ → ℕ
since_time_of_day time now = (now + (day - time)) % day

-- A task that has never run and has a first_run_time is executed exactly in the twelve hours after
-- that time of day, across midnight too. (At twelve hours to the microsecond the two branches of
-- the heuristic differ, by the day on which the time of day fell: that instant is left out.)
pub should_execute-first :
    (t : RecurringTask) (time now later : ℕ)
    → t.first_run_time ≡ some time
    → time < day
    → since_time_of_day time now ≢ 12 * hour
    → should_execute t [] now later ≡ ltb (since_time_of_day time now) (12 * hour)
unfolding should_execute
should_execute-first t time now later e h n = rw e (ground arith)
