-- ===== src/TaskProcessor/Models/Recurring.antt =====
-- The model RecurringTask, but for should_execute.
use flagsmith_common.Base.{
  ℕ, ◌+◌, Bool, true, false, String, Option, none, some, List, [], ◌∷◌, ltb, leb, ◌==◌, any, str_eq,
  if◌then◌else◌,
}
use flagsmith_common.Base.Table.{Table, update}
use flagsmith_common.TaskProcessor.Models.Fields.{
  AbstractBaseTask, AbstractTaskRun, failure, unlock_base,
}

pub record RecurringTask : Type 0 where
  pub base : AbstractBaseTask
  pub open base use *
  pub run_every : ℕ
  -- microseconds after midnight
  pub first_run_time : Option ℕ
  pub locked_at : Option ℕ
  pub timeout : ℕ
  pub last_picked_at : Option ℕ
  pub is_disabled : Bool
  pub num_consecutive_failures : ℕ

abbrev pub max_consecutive_failures : ℕ
max_consecutive_failures = 4

unfoldable pub unlock_recurring : RecurringTask → RecurringTask
unlock_recurring t = record t { base = unlock_base t.base; locked_at = none }

-- RecurringTask.mark_failure
unfoldable pub fail_recurring : RecurringTask → RecurringTask
unfolding unlock_recurring
fail_recurring t =
    let u = unlock_recurring t in
    let failures = u.num_consecutive_failures + 1 in
    record u {
      num_consecutive_failures = failures;
      is_disabled = if leb max_consecutive_failures failures then true else u.is_disabled;
    }

-- RecurringTask.mark_success
unfoldable pub succeed_recurring : RecurringTask → RecurringTask
unfolding unlock_recurring
succeed_recurring t = record (unlock_recurring t) { num_consecutive_failures = 0 }

abbrev pub abandoned_details : String
abandoned_details =
    "TaskAbandonedError: no result was written before the SQL reaper unlocked the task"

abbrev is_abandoned : ℕ → AbstractTaskRun → Bool
is_abandoned pk run = elim run.result [ none ↦ run.task == pk | some _ ↦ false ]

-- self.task_runs.filter(result__isnull=True).first(): the one with the least key.
abbrev first_abandoned : ℕ → Table AbstractTaskRun → Option ℕ
first_abandoned pk [] = none
first_abandoned pk ((k, run) ∷ runs) =
    let later = first_abandoned pk runs in
    if is_abandoned pk run
    then elim later [ none ↦ some k | some j ↦ if ltb j k then some j else some k ]
    else later

abbrev abandon : ℕ → AbstractTaskRun → AbstractTaskRun
abandon now run = record run {
  finished_at = some now;
  result = some failure;
  error_details = some abandoned_details;
}

-- For the task with key `pk`: its first run without a result is saved as a failure.
unfoldable pub reconcile_abandoned_run : ℕ → ℕ → Table AbstractTaskRun → Table AbstractTaskRun
unfolding update
reconcile_abandoned_run pk now runs = elim (first_abandoned pk runs) [
  | none ↦ runs
  | some k ↦ update k (abandon now) runs
]

unfoldable pub is_task_registered : List String → RecurringTask → Bool
is_task_registered registered t = any (λ name. str_eq name t.task_identifier) registered
