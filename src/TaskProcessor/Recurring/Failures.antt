-- ===== src/TaskProcessor/Recurring/Failures.antt =====
-- What happens to a recurring task that fails, or that asks for a delay.
use flagsmith_common.Base.{
  ℕ, ◌≡◌, refl, ap, ◌∙◌, Bool, true, false, Option, none, some, some_inj, Option-cases, inl, inr,
  arith, String, List,
}
use flagsmith_common.Base.Table.{Table, update}
use flagsmith_common.TaskProcessor.Database.{Database}
use flagsmith_common.TaskProcessor.Queue.{get_task_to_process, select_recurring, store_picked}
use flagsmith_common.TaskProcessor.Exceptions.{
  ok, raise, hang, >>=-eq-ok, assertion_error, task_backoff_error,
}
use flagsmith_common.TaskProcessor.Json.{Json}
use flagsmith_common.TaskProcessor.Settings.{Settings}
use flagsmith_common.TaskProcessor.Models.{
  AbstractTaskRun, RecurringTask, failure, fail_recurring, is_task_registered, should_execute,
  runs_of, reconcile_abandoned_run,
}
use flagsmith_common.TaskProcessor.Registry.{Registry, RegisteredTask, recurring}
use flagsmith_common.TaskProcessor.Processor.{
  recurring_model, Execution, Ending, returned, raised, Finished, future_result, wait_limit, settle,
  settle_or_hang, run_task, back_off, new_run, prepare, attempt, Occasion, names, process_recurring,
  run_recurring_task, execute_recurring, finish_run, begin_run,
}
use flagsmith_common.TaskProcessor.Tasks.{is_old_run}

module _ (settings : Settings) where
  -- Only a success sets the time at which a run has finished.
  settle-unfinished :
      (registered : RegisteredTask) (ending : Option Ending) (now : ℕ) (traceback : String)
      (task : RecurringTask) (run : AbstractTaskRun) (f : Finished RecurringTask)
      → settle_or_hang settings registered ending now traceback task run ≡ ok f
      → f.run.result ≡ some failure
      → f.run.finished_at ≡ run.finished_at
  unfolding settle
  settle-unfinished registered none now traceback task run f h failed = cc
  settle-unfinished registered (some returned) now traceback task run f h failed = ground arith
  settle-unfinished registered (some (raised e)) now traceback task run f h failed =
      elim (back_off settings registered e now (fail_recurring task)) [
        | ok task' ↦ ground arith
        | raise e' ↦ ground arith
        | hang ↦ ground arith
      ]

  module _ (json : Json) (registered_tasks : Registry) (x : Execution json) (pk : ℕ)
      (task : RecurringTask) where
    -- A run of a recurring task that _run_task ends in failure is at no time among the old runs that
    -- clean_up_old_recurring_task_runs deletes. (A run that is recorded as abandoned is not meant.)
    pub failed_run_kept :
        (now k : ℕ) (f : Finished RecurringTask)
        → run_task settings json registered_tasks x pk task (some (new_run x.started_at pk)) ≡ ok f
        → f.run.result ≡ some failure
        → is_old_run settings now (k, f.run) ≡ false
    unfolding run_task
    failed_run_kept now k f h failed =
        let run = new_run x.started_at pk in
        let (p, _, ran) =
          >>=-eq-ok (prepare settings json registered_tasks task)
            (attempt settings json x pk task (some run)) h in
        let e = settle-unfinished p.0 _ _ _ _ run f ran failed in simp e refl

    -- If a recurring task asks for a delay, _run_task raises an AssertionError.
    pub recurring_back_off_raises :
        (registered : RegisteredTask) (args kwargs : json.Value) (delay_until : Option ℕ)
        → prepare settings json registered_tasks task ≡ ok (registered, args, kwargs)
        → registered.task_type ≡ recurring
        → future_result
            (wait_limit (some task.timeout))
            (x.call registered.task_function args kwargs)
          ≡ some (raised (task_backoff_error delay_until))
        → run_task settings json registered_tasks x pk task (some (new_run x.started_at pk))
          ≡ raise assertion_error
    unfolding run_task settle back_off
    recurring_back_off_raises registered args kwargs delay_until prepared is_recurring ended =
        rw (prepared, ended, is_recurring) refl

get_task_to_process-picked :
    (busy : ℕ → Bool) (now k : ℕ) (task : RecurringTask) (tasks : Table RecurringTask)
    → (get_task_to_process busy now tasks).0 ≡ some (k, task)
    → (get_task_to_process busy now tasks).1 ≡ update k (store_picked now) tasks
unfolding get_task_to_process
get_task_to_process-picked busy now k task tasks h =
    elim (Option-cases (select_recurring busy now tasks)) [
      | inl e ↦ absurd (let h' = rw (get_task_to_process, e) at h in cc)
      | inr ((j, row), e) ↦
          let h' = rw (get_task_to_process, e) at h in
          let same : j ≡ k = ap (λ p. p.0) (some_inj h') in rw (get_task_to_process, e, same) refl
    ]

module _ (settings : Settings) (json : Json) (o : Occasion json) where
  -- The run that a recurring task is executed with, and the runs that the table then has.
  abbrev reconciled : ℕ → Database → List (ℕ × AbstractTaskRun)
  reconciled k db = reconcile_abandoned_run k o.reconciled_at db.recurring_task_runs

  process_recurring-back_off :
      (k : ℕ) (task : RecurringTask) (db : Database) (registered : RegisteredTask)
      (args kwargs : json.Value) (delay_until : Option ℕ)
      → is_task_registered (names o.registered_tasks) task ≡ true
      → should_execute task (runs_of k (reconciled k db)) o.tested_at o.tested_later_at ≡ true
      → prepare settings json o.registered_tasks task ≡ ok (registered, args, kwargs)
      → registered.task_type ≡ recurring
      → future_result
          (wait_limit (some task.timeout))
          (o.execution.call registered.task_function args kwargs)
        ≡ some (raised (task_backoff_error delay_until))
      → process_recurring settings json o k task db ≡ (
        raise assertion_error,
        o.meanwhile (
            begin_run
              (new_run o.execution.started_at k)
              (record db { recurring_task_runs = reconciled k db })),
      )
  unfolding process_recurring execute_recurring finish_run
  process_recurring-back_off k task db registered args kwargs delay_until known due prepared
        is_recurring ended =
      rw
        (
          known,
          due,
          recurring_back_off_raises settings json o.registered_tasks o.execution k task registered
              args kwargs delay_until prepared is_recurring ended,
        )
        refl

  -- If the recurring task that run_recurring_task picks and executes asks for a delay, the call raises an
  -- AssertionError, and all that it has changed in the table of recurring tasks is what the pick
  -- changed: the row is locked, and its failures are not counted. (The tasks themselves and other
  -- processes leave this table alone meanwhile.)
  pub run_recurring_task-back_off :
      (db : Database) (k : ℕ) (task : RecurringTask) (registered : RegisteredTask)
      (args kwargs : json.Value) (delay_until : Option ℕ)
      → ((d : Database) → (o.meanwhile d).recurring_tasks ≡ d.recurring_tasks)
      → (get_task_to_process o.busy o.picked_at db.recurring_tasks).0 ≡ some (k, task)
      → is_task_registered (names o.registered_tasks) task ≡ true
      → should_execute task
          (runs_of k (reconcile_abandoned_run k o.reconciled_at db.recurring_task_runs))
          o.tested_at
          o.tested_later_at
        ≡ true
      → prepare settings json o.registered_tasks task ≡ ok (registered, args, kwargs)
      → registered.task_type ≡ recurring
      → future_result
          (wait_limit (some task.timeout))
          (o.execution.call registered.task_function args kwargs)
        ≡ some (raised (task_backoff_error delay_until))
      → let (result, after) = run_recurring_task settings json o db in
        (result ≡ raise assertion_error)
        × (after.recurring_tasks ≡ update k (store_picked o.picked_at) db.recurring_tasks)
  unfolding run_recurring_task begin_run
  run_recurring_task-back_off db k task registered args kwargs delay_until quiet picked known due
        prepared is_recurring ended =
      let db' = record db {
        recurring_tasks = (get_task_to_process o.busy o.picked_at db.recurring_tasks).1;
      } in
      let processed =
        process_recurring-back_off k task db' registered args kwargs delay_until known due prepared
          is_recurring ended in
      rw (run_recurring_task, picked, processed)
        (
          refl,
          quiet _ ∙ get_task_to_process-picked o.busy o.picked_at k task db.recurring_tasks picked,
        )
