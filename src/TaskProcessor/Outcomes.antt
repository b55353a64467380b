-- ===== src/TaskProcessor/Outcomes.antt =====
-- What an execution by _run_task writes down, and when it is sure to come back.
use flagsmith_common.Base.{ℕ, ◌+◌, ◌≡◌, ◌⊎◌, true, false, Option, none, some, arith, String}
use flagsmith_common.TaskProcessor.Exceptions.{Exception, ok, >>=-eq-ok, ◌>>=◌, task_backoff_error}
use flagsmith_common.TaskProcessor.Json.{Json}
use flagsmith_common.TaskProcessor.Settings.{Settings}
use flagsmith_common.TaskProcessor.Models.{
  Task, AbstractTaskRun, success, failure, fail_task, succeed_task,
}
use flagsmith_common.TaskProcessor.Registry.{Registry, RegisteredTask}
use flagsmith_common.TaskProcessor.Processor.{
  task_model, Execution, Ending, returned, raised, Finished, settle, settle_or_hang, labels_of,
  run_task, back_off, prepare, attempt,
}

-- The record of one execution of a task: it is unlocked, and either it has completed, or it has
-- one more failure; its run and the labels say which.
pub record IsRecorded (task : Task) (f : Finished Task) : Type 0 where
  pub unlocked : f.task.is_locked ≡ false
  pub verdict :
      (f.run.result ≡ some success)
        × (f.task.completed ≡ true)
        × (f.task.num_failures ≡ task.num_failures)
      ⊎ (f.run.result ≡ some failure)
        × (f.task.completed ≡ task.completed)
        × (f.task.num_failures ≡ task.num_failures + 1)
  pub labelled : f.run.result ≡ some f.labels.result

module _ (settings : Settings) where
  back_off-fields :
      (registered : RegisteredTask) (e : Exception) (now : ℕ) (task task' : Task)
      → back_off settings registered e now task ≡ ok task'
      → (task'.is_locked ≡ task.is_locked)
        × (task'.completed ≡ task.completed)
        × (task'.num_failures ≡ task.num_failures)
  unfolding back_off
  back_off-fields registered (task_backoff_error d) now task task' h = ground arith
  back_off-fields registered _ now task task' h = ground arith

  abbrev pub failed : RegisteredTask → String → Task → AbstractTaskRun → Task → Finished Task
  failed registered traceback task run task' = record {
    task = task';
    run = record run { result = some failure; error_details = some traceback };
    labels = labels_of settings registered task failure;
  }

  failed-IsRecorded :
      (registered : RegisteredTask) (e : Exception) (now : ℕ) (traceback : String) (task : Task)
      (run : AbstractTaskRun) (f : Finished Task)
      → (do
        task' ← back_off settings registered e now (fail_task task)
        ok (failed registered traceback task run task'))
        ≡ ok f
      → IsRecorded task f
  unfolding fail_task
  failed-IsRecorded registered e now traceback task run f h =
      let (task', marked, same) =
        >>=-eq-ok (back_off settings registered e now (fail_task task))
          (λ t. ok (failed registered traceback task run t)) h in
      let (a, b, c) = back_off-fields registered e now (fail_task task) task' marked in ground arith

  settle-IsRecorded :
      (registered : RegisteredTask) (ending : Ending) (now : ℕ) (traceback : String) (task : Task)
      (run : AbstractTaskRun) (f : Finished Task)
      → settle settings registered ending now traceback task run ≡ ok f
      → IsRecorded task f
  unfolding settle fail_task succeed_task
  settle-IsRecorded registered returned now traceback task run f h = ground arith
  settle-IsRecorded registered (raised e) now traceback task run f h =
      ground (arith, failed-IsRecorded registered e now traceback task run f)

  module _ (json : Json) (registered_tasks : Registry) (x : Execution json) (pk : ℕ) (task : Task)
      (task_run : Option AbstractTaskRun) where
    settle_or_hang-IsRecorded :
        (registered : RegisteredTask) (ending : Option Ending) (now : ℕ) (traceback : String)
        (run : AbstractTaskRun) (f : Finished Task)
        → settle_or_hang settings registered ending now traceback task run ≡ ok f
        → IsRecorded task f
    settle_or_hang-IsRecorded registered none now traceback run f h = cc
    settle_or_hang-IsRecorded registered (some ending) now traceback run f h =
        settle-IsRecorded registered ending now traceback task run f h

    -- Whenever _run_task comes back with a result, the record is complete: the task is unlocked and
    -- completed, or unlocked with one failure more, and its run and its labels agree on which.
    pub run_task-IsRecorded :
        (f : Finished Task)
        → run_task settings json registered_tasks x pk task task_run ≡ ok f
        → IsRecorded task f
    unfolding run_task
    run_task-IsRecorded f h =
        let (p, _, ran) =
          >>=-eq-ok (prepare settings json registered_tasks task)
            (attempt settings json x pk task task_run) h in
        settle_or_hang-IsRecorded p.0 _ _ _ _ f ran
