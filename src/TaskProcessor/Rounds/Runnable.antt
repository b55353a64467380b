-- ===== src/TaskProcessor/Rounds/Runnable.antt =====
-- Tasks that _run_task is sure to come back from, and a round in which they are executed.
use flagsmith_common.Base.{ℕ, ◌<◌, ◌≡◌, refl, false, some, none, [], ◌∷◌, All}
use flagsmith_common.Base.Table.{Table}
use flagsmith_common.TaskProcessor.Exceptions.{ok}
use flagsmith_common.TaskProcessor.Json.{Json}
use flagsmith_common.TaskProcessor.Settings.{Settings}
use flagsmith_common.TaskProcessor.Models.{Task}
use flagsmith_common.TaskProcessor.Registry.{Registry, RegisteredTask, TaskFunction, standard}
use flagsmith_common.TaskProcessor.Database.{Database}
use flagsmith_common.TaskProcessor.Queue.{lock_task}
use flagsmith_common.TaskProcessor.Processor.{
  task_model, prepare, Surroundings, store_result, Executed, add_finished, run_each, run_task,
}
use flagsmith_common.TaskProcessor.Returns.{IsOrderly, run_task_total}

module _ (settings : Settings) (json : Json) (registered_tasks : Registry) where
  -- The task is registered as a standard one, its arguments parse, and it has a timeout.
  pub record IsRunnable (task : Task) : Type 0 where
    pub registered : RegisteredTask
    pub args : json.Value
    pub kwargs : json.Value
    pub prepared : prepare settings json registered_tasks task ≡ ok (registered, args, kwargs)
    pub is_task : registered.task_type ≡ standard
    pub limit : ℕ
    pub limited : task.timeout ≡ some limit
    pub positive : 0 < limit

  -- A round of a worker that is alone: no other transaction holds a row, the tasks and the other
  -- processes leave the database alone, and no call ends by an exception that is no Exception.
  pub record IsUndisturbed (s : Surroundings json) : Type 0 where
    pub registry : s.registered_tasks ≡ registered_tasks
    pub alone : s.busy ≡ (λ k. false)
    pub quiet : (db : Database) → s.meanwhile db ≡ db
    pub orderly :
        (k : ℕ) (function : TaskFunction) (args kwargs : json.Value)
        → IsOrderly ((s.execution k).call function args kwargs).ends

  pub IsRunnable-lock_task : (task : Task) → IsRunnable task → IsRunnable (lock_task task)
  unfolding prepare
  IsRunnable-lock_task task r = record {
    registered = r.registered;
    args = r.args;
    kwargs = r.kwargs;
    prepared = r.prepared;
    is_task = r.is_task;
    limit = r.limit;
    limited = r.limited;
    positive = r.positive;
  }

  pub IsRunnable-store_result :
      (after row : Task) → IsRunnable row → IsRunnable (store_result after row)
  unfolding prepare
  IsRunnable-store_result after row r = record {
    registered = r.registered;
    args = r.args;
    kwargs = r.kwargs;
    prepared = r.prepared;
    is_task = r.is_task;
    limit = r.limit;
    limited = r.limited;
    positive = r.positive;
  }

  module _ (s : Surroundings json) (u : IsUndisturbed s) where
    run_task-IsRunnable :
        (k : ℕ) (task : Task)
        → IsRunnable task
        → (f : _) × (run_task settings json s.registered_tasks (s.execution k) k task none ≡ ok f)
    run_task-IsRunnable k task r = rw u.registry (
        run_task_total settings json registered_tasks (s.execution k) k task none r.registered
          r.args r.kwargs r.limit r.prepared r.limited r.positive r.is_task
          (u.orderly k r.registered.task_function r.args r.kwargs))

    pub run_each-IsRunnable :
        (picked : Table Task)
        → All (λ row. IsRunnable row.1) picked
        → (executed : Executed) × (run_each settings json s picked ≡ ok executed)
    unfolding run_each
    run_each-IsRunnable [] h = (_, refl)
    run_each-IsRunnable ((k, task) ∷ picked) h =
        let (f, e) = run_task-IsRunnable k task h.0 in
        let (rest, e') = run_each-IsRunnable picked h.1 in
        (add_finished k f rest, rw (run_each, e, e') refl)
