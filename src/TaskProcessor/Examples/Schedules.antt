-- ===== src/TaskProcessor/Examples/Schedules.antt =====
-- The theorems on recurring tasks and on the clean-up, at small tables.
use flagsmith_common.Base.{
  ℕ, ◌+◌, ◌*◌, ◌≡◌, refl, ◌⊎◌, ◌↔◌, true, false, not, Option, none, some, List, [], ◌∷◌, arith, In,
  inl, inr, filter, ltb,
}
use flagsmith_common.Base.Order.{lex}
use flagsmith_common.Base.Table.{Table}
use flagsmith_common.TaskProcessor.Models.{
  RecurringTask, AbstractTaskRun, TaskResult, success, failure, should_execute, day, hour, minute,
}
use flagsmith_common.TaskProcessor.Queue.{select_recurring, recurring_key}
use flagsmith_common.TaskProcessor.Database.{Database}
use flagsmith_common.TaskProcessor.Recurring.Timing.{since_time_of_day, should_execute-first}
use flagsmith_common.TaskProcessor.Recurring.Streaks.{apply_results, HasStreak, disabled_iff_streak}
use flagsmith_common.TaskProcessor.Recurring.Reaper.{IsAvailable, select_recurring_total}
use flagsmith_common.TaskProcessor.Tasks.{clean_up_old_tasks, is_old_task}
use flagsmith_common.TaskProcessor.Tasks.CleanUp.{clean_up_old_tasks-exact}
use flagsmith_common.TaskProcessor.Examples.{settings, task_of, recurring_of, database, nobody}

-- The first task was locked 29 minutes and a microsecond ago, with a timeout of thirty minutes; the
-- second is disabled.
abbrev rows : Table RecurringTask
rows =
    (1, recurring_of true (some 0))
    ∷ (2, record (recurring_of false none) { is_disabled = true })
    ∷ []

select_recurring_total_example :
    (picked : ℕ × RecurringTask) × (select_recurring nobody (29 * minute + 1) rows ≡ some picked)
    × IsAvailable (29 * minute + 1) picked.1
    × In picked rows
    × (((1, recurring_of true (some 0)) ≡ picked)
        ⊎ (lex (recurring_key picked) (recurring_key (1, recurring_of true (some 0))) ≡ true))
select_recurring_total_example =
    select_recurring_total nobody (29 * minute + 1) 1 (recurring_of true (some 0)) rows refl
      (inl refl) (refl, inr (refl, (0, refl, omega arith)))

disabled_iff_streak_example :
    ((apply_results
        (failure ∷ success ∷ failure ∷ failure ∷ failure ∷ failure ∷ success ∷ [])
        (recurring_of false none)).is_disabled
      ≡ true)
    ↔ HasStreak (failure ∷ success ∷ failure ∷ failure ∷ failure ∷ failure ∷ success ∷ [])
disabled_iff_streak_example =
    disabled_iff_streak (failure ∷ success ∷ failure ∷ failure ∷ failure ∷ failure ∷ success ∷ [])
      (recurring_of false none) refl refl

-- First run at six, on a clock that shows seven on the second day.
should_execute-first_example :
    should_execute (recurring_of false none) [] (day + 7 * hour) (day + 7 * hour)
    ≡ ltb (since_time_of_day (6 * hour) (day + 7 * hour)) (12 * hour)
should_execute-first_example =
    should_execute-first (recurring_of false none) (6 * hour) (day + 7 * hour) (day + 7 * hour) refl
      (omega arith) (λ p. omega arith)

abbrev run_at : ℕ → Option TaskResult → AbstractTaskRun
run_at moment result = record {
  started_at = moment;
  finished_at = none;
  result = result;
  error_details = none;
  task = 1;
}

abbrev runs : List AbstractTaskRun
runs = run_at 10 (some success) ∷ run_at 20 (some failure) ∷ []

abbrev full : Database
full = record database {
  tasks =
      (1, task_of "mails.send" 50 0 true)
      ∷ (2, task_of "mails.send" 50 0 false)
      ∷ (3, task_of "mails.send" 50 1 true)
      ∷ [];
}

-- Two of three tasks are old, and a DELETE takes one of them.
clean_up_old_tasks-exact_example :
    (db' : Database) × (clean_up_old_tasks settings (2 * day) 3 full ≡ some db')
    × (db'.tasks ≡ filter (λ row. not (is_old_task settings (2 * day) row)) full.tasks)
unfolding filter
clean_up_old_tasks-exact_example =
    clean_up_old_tasks-exact settings (2 * day) 3 full refl (omega arith)
      (((λ p. cc), ((λ p. cc), tt)), (((λ p. cc), tt), (tt, tt))) (omega arith)
