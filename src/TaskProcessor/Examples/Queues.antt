-- ===== src/TaskProcessor/Examples/Queues.antt =====
-- The theorems on the queue and on its workers, at a queue of four tasks.
use flagsmith_common.Base.{
  ℕ, ◌*◌, ◌≤◌, ◌<◌, ◌≡◌, refl, ◌⊎◌, ◌↔◌, inl, false, Option, none, some, [], length, ◌∷◌, arith,
  All, In, filter,
}
use Prim.Native.Nat.{min}
use flagsmith_common.Base.Order.{lex}
use flagsmith_common.Base.Table.{keys}
use flagsmith_common.TaskProcessor.Queue.{get_tasks_to_process, lock_task, get_num_waiting_tasks}
use flagsmith_common.TaskProcessor.Queue.Fairness.{NotOvertaken, pick_fair, pick-waiting}
use flagsmith_common.TaskProcessor.Queue.Locking.{AllLocked, Avoids, pick_twice-Avoids}
use flagsmith_common.TaskProcessor.Workers.{System, pick, Reach, start, step, AllDisjoint}
use flagsmith_common.TaskProcessor.Workers.Exclusion.{workers_exclude}
use flagsmith_common.TaskProcessor.Workers.Stranding.{IsStranded, Reach-IsStranded}
use flagsmith_common.TaskProcessor.Exceptions.{ok, raise, task_queue_full_error}
use flagsmith_common.TaskProcessor.Models.{Task, TaskPriority, normal, TraceContext, create, second}
use flagsmith_common.TaskProcessor.Processor.{returned}
use flagsmith_common.TaskProcessor.Decorators.{save_new, delay}
use flagsmith_common.TaskProcessor.Decorators.Callers.{Callers, waiting, callers_bound}
use flagsmith_common.TaskProcessor.Decorators.Callers
use flagsmith_common.TaskProcessor.Examples.{
  tasks, task_of, nobody, settings, texts, handler, database,
}

-- Two workers pick one task each, with an insertion in between.
abbrev at_start : System
at_start = record { next_id = 5; tasks = tasks; held = [] }

abbrev after_pick : System → System
after_pick σ = record σ {
  tasks = (get_tasks_to_process nobody 100 1 σ.tasks).1;
  held = keys (get_tasks_to_process nobody 100 1 σ.tasks).0 ∷ σ.held;
}

two_picks : Reach at_start (after_pick (after_pick at_start))
two_picks = step (step start (pick nobody 100 1)) (pick nobody 100 1)

workers_exclude_example :
    AllDisjoint (after_pick (after_pick at_start)).held
    × All
        (λ batch. AllLocked batch (after_pick (after_pick at_start)).tasks)
        (after_pick (after_pick at_start)).held
workers_exclude_example =
    workers_exclude 5 tasks (after_pick (after_pick at_start))
      (omega arith, (omega arith, (omega arith, (omega arith, tt)))) two_picks

-- The worker that has picked the task with the key 2 dies, and another one picks.
abbrev after_death : System
after_death = record (after_pick at_start) { held = [] }

Reach-IsStranded_example : IsStranded 2 (after_pick after_death)
unfolding get_tasks_to_process lex
Reach-IsStranded_example =
    Reach-IsStranded 2 {σ = after_death}
      (record {
        locked =
            ((λ e. absurd (cc)), ((λ e. refl), ((λ e. absurd (cc)), ((λ e. absurd (cc)), tt))));
        not_held = tt;
        used = omega arith;
      })
      (step start (pick nobody 100 1))

-- The task with the key 1 is due, but with a limit of one the task with the key 2 is picked.
pick_fair_example :
    In (1, lock_task (task_of "mails.send" 50 0 false)) (get_tasks_to_process nobody 100 1 tasks).0
    ⊎ NotOvertaken (1, task_of "mails.send" 50 0 false) (get_tasks_to_process nobody 100 1 tasks).0
pick_fair_example =
    pick_fair nobody 100 1 tasks (1, task_of "mails.send" 50 0 false) (inl refl) refl

pick_twice-Avoids_example :
    Avoids
      (keys (get_tasks_to_process nobody 100 1 tasks).0)
      (get_tasks_to_process nobody 101 5 (get_tasks_to_process nobody 100 1 tasks).1).0
pick_twice-Avoids_example = pick_twice-Avoids nobody nobody 100 101 1 5 tasks

pick-waiting_example :
    length (get_tasks_to_process (λ _. false) 100 2 tasks).0
    ≡ min 2 (get_num_waiting_tasks 100 tasks)
pick-waiting_example = pick-waiting 100 2 tasks

-- Two tasks of the handler wait, which is its queue size, and two callers count before they insert.
abbrev quiet : Callers
quiet = record { database = database; pending = [] }

abbrev extra : Task
extra = record (task_of "mails.send" 50 0 false) {
  base = record (task_of "mails.send" 50 0 false).base {
    created_at = 0;
    serialized_args = some "[2]";
    serialized_kwargs = some "{}";
  };
  scheduled_for = some 100;
}

abbrev inserted : Callers → Callers
inserted σ = record { database = save_new texts 100 extra σ.database; pending = [] }

abbrev two_counted : Callers
two_counted = record quiet { pending = extra ∷ extra ∷ [] }

abbrev one_inserted : Callers
one_inserted = record { database = save_new texts 100 extra database; pending = extra ∷ [] }

two_callers : Callers.Reach texts "mails.send" 2 2 quiet (inserted one_inserted)
unfolding create filter
two_callers =
    Callers.step
      (Callers.step
        (Callers.step
          (Callers.step Callers.start
            (Callers.count 100 normal "[2]" "{}" (some (60 * second)) none refl (omega arith)))
          (Callers.count 100 normal "[2]" "{}" (some (60 * second)) none refl (omega arith)))
        (Callers.save 100 [] extra (extra ∷ []) refl))
      (Callers.save 100 [] extra [] refl)

callers_bound_example :
    (waiting "mails.send" (inserted one_inserted).database.tasks ≤ 4)
    × ((scheduled_for : ℕ) (priority : TaskPriority) (args kwargs : texts.Value)
          (timeout : Option ℕ) (carrier : Option TraceContext)
        → (create texts "mails.send" scheduled_for priority
              (some 2)
              args
              kwargs
              timeout
              carrier
              (inserted one_inserted).database.tasks
            ≡ raise (task_queue_full_error "mails.send" 2))
          ↔ (2 < waiting "mails.send" (inserted one_inserted).database.tasks))
unfolding filter
callers_bound_example =
    callers_bound texts "mails.send" 2 2 quiet (inserted one_inserted) (omega arith) refl
      (omega arith) two_callers

-- A third task of this handler is inserted although another caller has filled the queue since the count.
delay_test :
    let delayed =
      delay texts settings handler
        (λ _ _ _. returned)
        none
        100
        none
        "[2]"
        none
        (save_new texts 100 extra)
        database in
    (delayed.result ≡ ok (some 6)) × (waiting "mails.send" delayed.database.tasks ≡ 4)
unfolding delay filter
delay_test = (refl, refl)
