-- ===== src/TaskProcessor/Returns.antt =====
-- When _run_task is sure to come back, and which calls it records as a success.
use flagsmith_common.Base.{
  ℕ, ◌+◌, ◌*◌, ◌≤◌, ◌<◌, ◌≡◌, ◌∙◌, sym, ap, refl, ◌↔◌, leb→le, Bool-cases, some_inj, inl, inr, Bool,
  true, false, Option, none, some, arith, Option-cases, if◌then◌else◌, String, leb,
}
use flagsmith_common.TaskProcessor.Exceptions.{
  Exception, is_caught, ok, raise, hang, timeout_error, task_backoff_error, task_queue_full_error,
}
use flagsmith_common.TaskProcessor.Json.{Json}
use flagsmith_common.TaskProcessor.Settings.{Settings}
use flagsmith_common.TaskProcessor.Models.{Task, AbstractTaskRun, fail_task, second, success}
use flagsmith_common.TaskProcessor.Registry.{Registry, RegisteredTask, standard}
use flagsmith_common.TaskProcessor.Processor.{
  task_model, Execution, Ending, returned, raised, Call, Finished, future_result, wait_limit,
  settle, run_task, back_off, run_or_new, prepare,
}
use flagsmith_common.TaskProcessor.Outcomes.{failed, IsRecorded, run_task-IsRecorded}

-- The call does not end by an exception that `except Exception` lets through.
abbrev pub IsOrderly : Ending → Type 0
IsOrderly returned = Unit
IsOrderly (raised e) = is_caught e ≡ true

module _ (settings : Settings) (registered : RegisteredTask)
    (is_task : registered.task_type ≡ standard) where
  back_off_total :
      (e : Exception) (now : ℕ) (task : Task)
      → (task' : Task) × (back_off settings registered e now task ≡ ok task')
  unfolding back_off
  back_off_total (task_backoff_error delay_until) now task = (
    if leb task.num_failures 3
        then record task {
          scheduled_for = some (elim delay_until [
            | none ↦ now + settings.task_backoff_default_delay_seconds * second
            | some moment ↦ moment
          ]);
        }
        else task,
    rw is_task refl,
  )
  back_off_total (task_queue_full_error a b) now task = (task, refl)
  back_off_total _ now task = (task, refl)

  settle_total :
      (ending : Ending) (now : ℕ) (traceback : String) (task : Task) (run : AbstractTaskRun)
      → IsOrderly ending
      → (f : Finished Task) × (settle settings registered ending now traceback task run ≡ ok f)
  unfolding settle
  settle_total returned now traceback task run h = (_, refl)
  settle_total (raised e) now traceback task run h =
      let (task', marked) = back_off_total e now (fail_task task) in
      (failed settings registered traceback task run task', rw (h, marked) refl)

IsOrderly-if :
    (b : Bool) (ending : Ending)
    → IsOrderly ending
    → IsOrderly (if b then ending else raised timeout_error)
IsOrderly-if true ending h = h
IsOrderly-if false ending h = refl

future_result-IsOrderly :
    (limit : ℕ) (call : Call)
    → IsOrderly call.ends
    → (ending : Ending) × (future_result (some limit) call ≡ some ending) × IsOrderly ending
unfolding future_result
future_result-IsOrderly limit call h = elim (Option-cases call.takes) [
  | inl never ↦ (raised timeout_error, rw never refl, refl)
  | inr (duration, e) ↦ (_, rw e refl, IsOrderly-if (leb duration limit) call.ends h)
]

-- The call returns, and within the limit.
abbrev pub IsInTime : ℕ → Call → Type 0
IsInTime limit call = (call.ends ≡ returned) × ((d : ℕ) × (call.takes ≡ some d) × (d ≤ limit))

future_result-IsInTime :
    (limit : ℕ) (call : Call)
    → (future_result (some limit) call ≡ some returned) ↔ IsInTime limit call
unfolding future_result
future_result-IsInTime limit call = elim (Option-cases call.takes) [
  | inl never ↦ (λ h. absurd (ground arith), λ h. absurd (ground arith))
  | inr (duration, e) ↦ elim (Bool-cases (leb duration limit)) [
    | inl soon ↦ (λ h. (ground arith, (duration, e, leb→le _ _ soon)), λ h. ground arith)
    | inr late ↦ (λ h. absurd (ground arith), λ h. absurd (ground arith))
  ]
]

-- A run is recorded as a success exactly if the call returned.
settle-success :
    (settings : Settings) (registered : RegisteredTask) (ending : Ending) (now : ℕ)
    (traceback : String) (task : Task) (run : AbstractTaskRun) (f : Finished Task)
    → settle settings registered ending now traceback task run ≡ ok f
    → (f.run.result ≡ some success) ↔ (ending ≡ returned)
unfolding settle
settle-success settings registered returned now traceback task run f h = ground arith
settle-success settings registered (raised e) now traceback task run f h =
    elim (back_off settings registered e now (fail_task task)) [
      | ok task' ↦ ground arith
      | raise e' ↦ ground arith
      | hang ↦ ground arith
    ]

wait_limit-some :
    (timeout : Option ℕ) (limit : ℕ)
    → timeout ≡ some limit
    → 0 < limit
    → wait_limit timeout ≡ some limit
wait_limit-some timeout limit e h = rw e (ground arith)

module _ (settings : Settings) (json : Json) (registered_tasks : Registry) (x : Execution json)
    (pk : ℕ) (task : Task) (task_run : Option AbstractTaskRun) (registered : RegisteredTask)
    (args kwargs : json.Value) (limit : ℕ)
    (prepared : prepare settings json registered_tasks task ≡ ok (registered, args, kwargs))
    (limited : task.timeout ≡ some limit) (positive : 0 < limit) where
  -- With a timeout, in the mode of the task processor, _run_task of a task that is registered as a
  -- standard one and whose arguments parse always comes back with a result, whether its function
  -- returns, raises an Exception, backs off, overruns or never ends.
  pub run_task_total :
      registered.task_type ≡ standard
      → IsOrderly (x.call registered.task_function args kwargs).ends
      → (f : Finished Task) × (run_task settings json registered_tasks x pk task task_run ≡ ok f)
  unfolding run_task
  run_task_total is_task h =
      let (ending, ended, orderly) =
        future_result-IsOrderly limit (x.call registered.task_function args kwargs) h in
      let (f, settled) =
        settle_total settings registered is_task ending x.ended_at x.traceback task
          (run_or_new task_run x.started_at pk) orderly in
      (f, rw (prepared, wait_limit-some task.timeout limit limited positive, ended) settled)

  -- The result with which _run_task comes back (for a registered standard task with a timeout and
  -- arguments that parse, in the mode of the task processor, whose function ends by no BaseException
  -- that is no Exception) is a success exactly if the function returned within the timeout; the task
  -- is unlocked, and either completed or with one failure more, and its run and its labels agree on
  -- which.
  pub run_task-IsInTime :
      registered.task_type ≡ standard
      → IsOrderly (x.call registered.task_function args kwargs).ends
      → (f : Finished Task) × (run_task settings json registered_tasks x pk task task_run ≡ ok f)
        × IsRecorded task f
        × ((f.run.result ≡ some success)
            ↔ IsInTime limit (x.call registered.task_function args kwargs))
  unfolding run_task
  run_task-IsInTime is_task h =
      let call = x.call registered.task_function args kwargs in
      let (ending, ended, orderly) = future_result-IsOrderly limit call h in
      let run = run_or_new task_run x.started_at pk in
      let (f, settled) =
        settle_total settings registered is_task ending x.ended_at x.traceback task run orderly in
      let came : run_task settings json registered_tasks x pk task task_run ≡ ok f =
        rw (prepared, wait_limit-some task.timeout limit limited positive, ended) settled in
      let success_iff =
        settle-success settings registered ending x.ended_at x.traceback task run f settled in
      let in_time_iff = future_result-IsInTime limit call in
      (
        f,
        came,
        run_task-IsRecorded settings json registered_tasks x pk task task_run f came,
        (
          λ s. in_time_iff.0 (ended ∙ ap some (success_iff.0 s)),
          λ t. success_iff.1 (some_inj (sym ended ∙ in_time_iff.1 t)),
        ),
      )
