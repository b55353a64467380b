-- ===== src/TaskProcessor/Examples/Rounds.antt =====
-- The theorems on rounds, at a queue of two tasks that keep failing.
use flagsmith_common.Base.{ℕ, ◌≡◌, true, refl, false, none, some, [], ◌∷◌, arith, ◌*◌}
use flagsmith_common.TaskProcessor.Exceptions.{other_error}
use flagsmith_common.TaskProcessor.Models.{second}
use flagsmith_common.TaskProcessor.Registry.{standard}
use flagsmith_common.TaskProcessor.Database.{Database}
use flagsmith_common.TaskProcessor.Processor.{Surroundings, raised, prepare}
use flagsmith_common.TaskProcessor.Rounds.Runnable.{IsRunnable, IsUndisturbed}
use flagsmith_common.TaskProcessor.Rounds.Progress.{FindsNone, run_tasks-FindsNone}
use flagsmith_common.TaskProcessor.Threads.{get_unhealthy_threads}
use flagsmith_common.TaskProcessor.Threads.Runs.{Round, run}
use flagsmith_common.TaskProcessor.Threads.Survival.{IsOrdinary, run_healthy}
use flagsmith_common.TaskProcessor.Examples.{
  texts, settings, task_of, registry_of, send, execution_of, surroundings, database,
}

abbrev two_mails : Database
two_mails = record database {
  tasks = (1, task_of "mails.send" 50 0 false) ∷ (2, task_of "mails.send" 0 1 false) ∷ [];
}

abbrev failing : Surroundings texts
failing = record surroundings { execution = λ _. execution_of (some 7) (raised (other_error "E")) }

mail-IsRunnable :
    (priority num_failures : ℕ)
    → IsRunnable settings texts
        (registry_of standard)
        (task_of "mails.send" priority num_failures false)
unfolding prepare
mail-IsRunnable priority num_failures = record {
  registered = record {
    task_identifier = "mails.send";
    task_function = send;
    task_type = standard;
    task_kwargs = none;
  };
  args = "[1]";
  kwargs = "{}";
  prepared = refl;
  is_task = refl;
  limit = 60 * second;
  limited = refl;
  positive = omega arith;
}

failing-IsUndisturbed : IsUndisturbed settings texts (registry_of standard) failing
failing-IsUndisturbed = record {
  registry = refl;
  alone = refl;
  quiet = λ db. refl;
  orderly = λ k function args kwargs. refl;
}

run_tasks-FindsNone_example :
    FindsNone settings texts
      (registry_of standard)
      1
      (failing ∷ failing ∷ failing ∷ failing ∷ failing ∷ failing ∷ [])
      two_mails
run_tasks-FindsNone_example =
    let u = failing-IsUndisturbed in
    run_tasks-FindsNone settings texts (registry_of standard) 1
      (failing ∷ failing ∷ failing ∷ failing ∷ failing ∷ failing ∷ []) two_mails (omega arith)
      (u, (u, (u, (u, (u, (u, tt)))))) (mail-IsRunnable 50 0, (mail-IsRunnable 0 1, tt))
      (refl, (refl, tt)) (omega arith)

-- A round in which the tasks fail on each database.
abbrev failing_round : Round texts
failing_round = record {
  is_stopped = false;
  checked_at = 40;
  surroundings = λ name. failing;
  occasion = λ name. record {
    registered_tasks = registry_of standard;
    busy = λ k. false;
    picked_at = 40;
    reconciled_at = 40;
    age_read_at = 40;
    tested_at = 40;
    tested_later_at = 40;
    execution = execution_of (some 7) (raised (other_error "E"));
    meanwhile = λ db. db;
  };
}

failing_round-IsOrdinary : IsOrdinary settings texts 1 failing_round
failing_round-IsOrdinary = record {
  is_running = refl;
  tasks = λ name k function task_args task_kwargs. (refl, 7, refl);
  recurring_tasks = λ name function task_args task_kwargs. (refl, 7, refl);
}

run_healthy_example :
    get_unhealthy_threads 3 50 (
      (run settings texts 1
        (failing_round ∷ failing_round ∷ [])
        (record { is_alive = true; last_checked_for_tasks = none })
        (λ name. two_mails)).0
      ∷ [])
    ≡ []
run_healthy_example =
    run_healthy settings texts 1 failing_round (failing_round ∷ [])
      (record { is_alive = true; last_checked_for_tasks = none }) (λ name. two_mails) 40 50 3
      (failing_round-IsOrdinary, (failing_round-IsOrdinary, tt)) refl refl (omega arith)
