-- ===== src/TaskProcessor/Examples/Runs.antt =====
-- The theorems on single executions and on batches, at a small registry.
use flagsmith_common.Base.{
  ℕ, ◌≡◌, refl, ◌↔◌, inl, inr, Bool, true, false, none, some, [], ◌∷◌, arith, ◌*◌,
}
use flagsmith_common.Base.Order.{lex}
use flagsmith_common.Base.Table.{keys, update}
use flagsmith_common.TaskProcessor.Exceptions.{
  ok, raise, other_error, task_backoff_error, assertion_error,
}
use flagsmith_common.TaskProcessor.Models.{
  Task, RecurringTask, fail_recurring, AbstractTaskRun, success, failure, succeed_task, second,
  hour, is_task_registered, should_execute, reconcile_abandoned_run,
}
use flagsmith_common.TaskProcessor.Registry.{lookup, standard, recurring, RegisteredTask}
use flagsmith_common.TaskProcessor.Database.{Database}
use flagsmith_common.TaskProcessor.Queue.{
  get_tasks_to_process, get_task_to_process, lock_task, lock_recurring, store_picked,
}
use flagsmith_common.TaskProcessor.Queue.Locking.{AllLocked, Avoids}
use flagsmith_common.TaskProcessor.Processor.{
  task_model, recurring_model, run_task, run_tasks, run_recurring_task, Occasion, future_result,
  returned, raised, Finished, prepare,
}
use flagsmith_common.TaskProcessor.Outcomes.{IsRecorded, run_task-IsRecorded}
use flagsmith_common.TaskProcessor.Returns.{IsInTime, run_task_total, run_task-IsInTime}
use flagsmith_common.TaskProcessor.Batches.{IsWritten, run_tasks-IsWritten}
use flagsmith_common.TaskProcessor.Batches.Lost.{Fails, unregistered_strands_batch}
use flagsmith_common.TaskProcessor.Recurring.Failures.{failed_run_kept, run_recurring_task-back_off}
use flagsmith_common.TaskProcessor.Tasks.{is_old_run}
use flagsmith_common.TaskProcessor.Examples.{
  texts, settings, tasks, task_of, registry_of, execution_of, send, surroundings, database, nobody,
  recurring_of,
}

abbrev mail : Task
mail = task_of "mails.send" 50 0 false

abbrev registered : RegisteredTask
registered = record {
  task_identifier = "mails.send";
  task_function = send;
  task_type = standard;
  task_kwargs = none;
}

-- A call that returns after seven microseconds.
abbrev sent : Finished Task
sent = record {
  task = succeed_task mail;
  run = record {
    started_at = 20;
    finished_at = some 30;
    result = some success;
    error_details = none;
    task = 1;
  };
  labels = record { task_identifier = "mails.send"; task_type = standard; result = success };
}

run_task-IsRecorded_example : IsRecorded mail sent
unfolding run_task
run_task-IsRecorded_example =
    run_task-IsRecorded settings texts (registry_of standard) (execution_of (some 7) returned) 1
      mail none sent refl

-- A call that never ends.
run_task_total_example :
    (f : Finished Task) × (run_task settings texts
        (registry_of standard)
        (execution_of none returned)
        1
        mail
        none
      ≡ ok f)
unfolding prepare
run_task_total_example =
    run_task_total settings texts (registry_of standard) (execution_of none returned) 1 mail none
      registered "[1]" "{}" (60 * second) refl refl (omega arith) refl tt

run_task-IsInTime_example :
    (f : Finished Task) × (run_task settings texts
        (registry_of standard)
        (execution_of (some 7) returned)
        1
        mail
        none
      ≡ ok f)
    × IsRecorded mail f
    × ((f.run.result ≡ some success)
        ↔ IsInTime (60 * second) (record { takes = some 7; ends = returned }))
unfolding prepare
run_task-IsInTime_example =
    run_task-IsInTime settings texts (registry_of standard) (execution_of (some 7) returned) 1 mail
      none registered "[1]" "{}" (60 * second) refl refl (omega arith) refl tt

abbrev run_of : ℕ → AbstractTaskRun
run_of k = record sent.run { task = k }

-- The tasks 2 and 1 are picked and executed.
abbrev left : Database
left = (run_tasks settings texts surroundings 2 database).1

run_tasks-IsWritten_example :
    IsWritten (get_tasks_to_process nobody 100 2 tasks).0 (1, succeed_task mail)
unfolding run_tasks lex succeed_task
run_tasks-IsWritten_example =
    run_tasks-IsWritten settings texts surroundings 2 database left (run_of 2 ∷ run_of 1 ∷ [])
      (1, succeed_task mail) refl (inl refl) refl

-- The task 4 is the third that is picked, and its handler is gone.
unregistered_strands_batch_example :
    let picked = (get_tasks_to_process nobody 100 4 tasks).0 in
    let (r, db') = run_tasks settings texts surroundings 4 database in
    Fails r
    × AllLocked (keys picked) db'.tasks
    × ((busy : ℕ → Bool) (now n : ℕ)
        → Avoids (keys picked) (get_tasks_to_process busy now n db'.tasks).0)
unfolding get_tasks_to_process lookup lex
unregistered_strands_batch_example =
    unregistered_strands_batch settings texts surroundings 4 database (λ d. refl) 4
      (lock_task (task_of "lost.task" 75 0 false)) (omega arith) (inr (inr (inl refl))) refl

abbrev broken : Finished RecurringTask
broken = record {
  task = fail_recurring (recurring_of true none);
  run = record {
    started_at = 20;
    finished_at = none;
    result = some failure;
    error_details = some "Traceback";
    task = 1;
  };
  labels = record { task_identifier = "mails.send"; task_type = recurring; result = failure };
}

failed_run_kept_example : is_old_run settings 900 (8, broken.run) ≡ false
unfolding run_task
failed_run_kept_example =
    failed_run_kept settings texts (registry_of recurring)
      (execution_of (some 7) (raised (other_error "down"))) 1 (recurring_of true none) 900 8 broken
      refl refl

abbrev scheduled : Database
scheduled = record database { recurring_tasks = (1, recurring_of false none) ∷ [] }

-- It is seven o'clock, and the function asks for a delay.
abbrev occasion : Occasion texts
occasion = record {
  registered_tasks = registry_of recurring;
  busy = nobody;
  picked_at = 7 * hour;
  reconciled_at = 7 * hour;
  age_read_at = 7 * hour;
  tested_at = 7 * hour;
  tested_later_at = 7 * hour;
  execution = execution_of (some 7) (raised (task_backoff_error none));
  meanwhile = λ db. db;
}

run_recurring_task-back_off_example :
    let (result, after) = run_recurring_task settings texts occasion scheduled in
    (result ≡ raise assertion_error)
    × (after.recurring_tasks ≡ update 1 (store_picked (7 * hour)) scheduled.recurring_tasks)
unfolding get_task_to_process prepare future_result is_task_registered should_execute
    reconcile_abandoned_run
run_recurring_task-back_off_example =
    run_recurring_task-back_off settings texts occasion scheduled 1
      (lock_recurring (7 * hour) (recurring_of false none))
      (record registered { task_type = recurring }) "[1]" "{}" none (λ d. refl) refl refl refl refl
      refl refl
