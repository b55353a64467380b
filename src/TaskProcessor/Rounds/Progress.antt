-- ===== src/TaskProcessor/Rounds/Progress.antt =====
-- The proofs on rounds of a worker that is alone: the attempts that they use up.
use Prim.Native.Nat.{min}
use flagsmith_common.Base.{
  ℕ, ◌<◌, ◌≡◌, refl, sym, ap, subst, ◌⊎◌, inl, inr, true, false, List, [], ◌∷◌, arith, ltb, All, In,
  All-In, All-map, All_of_In, length,
}
use flagsmith_common.Base.Table.{Table, keys, has_key}
use flagsmith_common.TaskProcessor.Exceptions.{Result, ok}
use flagsmith_common.TaskProcessor.Json.{Json}
use flagsmith_common.TaskProcessor.Settings.{Settings}
use flagsmith_common.TaskProcessor.Models.{Task, AbstractTaskRun}
use flagsmith_common.TaskProcessor.Registry.{Registry}
use flagsmith_common.TaskProcessor.Database.{Database}
use flagsmith_common.TaskProcessor.Queue.{get_tasks_to_process, get_num_waiting_tasks}
use flagsmith_common.TaskProcessor.Queue.Picks.{IsPicked, get_tasks_to_process-IsPicked}
use flagsmith_common.TaskProcessor.Queue.Fairness.{pick-waiting}
use flagsmith_common.TaskProcessor.Queue.Locking.{pick-left}
use flagsmith_common.TaskProcessor.Processor.{
  Surroundings, bulk_update, bulk_create, write_back, run_tasks, if_any,
}
use flagsmith_common.TaskProcessor.Batches.{
  Entries, run_each-Entries, tasks-bulk_create, run_tasks-IsWritten,
}
use flagsmith_common.TaskProcessor.Workers.Exclusion.{lock_keys-All, bulk_update-All}
use flagsmith_common.TaskProcessor.Rounds.{attempts_left}
use flagsmith_common.TaskProcessor.Rounds.Alignment.{
  IsAligned, IsAligned-lock_keys, IsAligned-bulk_update, keys-IsAligned,
}
use flagsmith_common.TaskProcessor.Rounds.Attempts.{
  IsUnique, has_key-In, count_in-positive, IsReduced, attempts_left-le, IsWritten-IsReduced,
}
use flagsmith_common.TaskProcessor.Rounds.Runnable.{
  IsRunnable, IsUndisturbed, IsRunnable-lock_task, IsRunnable-store_result, run_each-IsRunnable,
}

keys-All :
    (ks : List ℕ) (executed : Table Task)
    → keys executed ≡ ks
    → All (λ entry. has_key entry.0 ks ≡ true) executed
keys-All ks executed e =
    All_of_In (λ entry. has_key entry.0 ks ≡ true) executed
      (λ entry i. rw (sym e) (has_key-In entry.0 entry.1 executed i))

first_or_none : (rows : Table Task) → (rows ≡ []) ⊎ ((row : ℕ × Task) × In row rows)
first_or_none [] = inl refl
first_or_none (row ∷ rows) = inr (row, inl refl)

module _ (settings : Settings) (json : Json) (registered_tasks : Registry) (num_tasks : ℕ) where
  abbrev AllRunnable : Table Task → Type 0
  AllRunnable rows = All (λ row. IsRunnable settings json registered_tasks row.1) rows

  -- What a round leaves: it returns, the table keeps its form, and only the picked rows change.
  record Leaves (ks : List ℕ) (rows : Table Task) (o : Result (List AbstractTaskRun) × Database)
      : Type 0 where
    runs : List AbstractTaskRun
    after : Database
    returned : o ≡ (ok runs, after)
    aligned : IsAligned ks rows after.tasks
    runnable : AllRunnable after.tasks

  if_any-Leaves :
      (picked rows : Table Task) (executed : Table Task) (runs : List AbstractTaskRun)
      (db : Database)
      → keys executed ≡ keys picked
      → IsAligned (keys picked) rows db.tasks
      → AllRunnable db.tasks
      → Leaves (keys picked) rows (if_any picked (write_back (ok (executed, runs)) db) (ok [], db))
  unfolding write_back
  if_any-Leaves [] rows executed runs db e h r = record {
    runs = [];
    after = db;
    returned = refl;
    aligned = h;
    runnable = r;
  }
  if_any-Leaves (row ∷ picked) rows executed runs db e h r = record {
    runs = runs;
    after = bulk_create runs (record db { tasks = bulk_update executed db.tasks });
    returned = refl;
    aligned = rw tasks-bulk_create (
        IsAligned-bulk_update (keys (row ∷ picked)) executed rows db.tasks (keys-All _ executed e)
          h);
    runnable = rw tasks-bulk_create (
        bulk_update-All (λ row. IsRunnable settings json registered_tasks row.1) executed db.tasks
          (λ k after row _. IsRunnable-store_result settings json registered_tasks after row) r);
  }

  module _ (s : Surroundings json) (u : IsUndisturbed settings json registered_tasks s)
      (db : Database) where
    abbrev picked : Table Task
    picked = (get_tasks_to_process s.busy s.now num_tasks db.tasks).0

    abbrev left : Table Task
    left = (get_tasks_to_process s.busy s.now num_tasks db.tasks).1

    picked-IsRunnable : AllRunnable db.tasks → AllRunnable picked
    picked-IsRunnable r =
        All-map
          (λ row p. subst (IsRunnable settings json registered_tasks) (sym p.locked) (
            IsRunnable-lock_task settings json registered_tasks p.queued (
              All-In (λ row. IsRunnable settings json registered_tasks row.1) (row.0, p.queued)
                db.tasks r p.stored)))
          picked (get_tasks_to_process-IsPicked s.busy s.now num_tasks db.tasks)

    left-IsRunnable : AllRunnable db.tasks → AllRunnable left
    left-IsRunnable r = rw (pick-left s.busy s.now num_tasks db.tasks) (
        lock_keys-All (λ row. IsRunnable settings json registered_tasks row.1)
          (λ k t. IsRunnable-lock_task settings json registered_tasks t) (keys picked) db.tasks r)

    left-IsAligned : IsAligned (keys picked) db.tasks left
    left-IsAligned =
        rw (pick-left s.busy s.now num_tasks db.tasks) (IsAligned-lock_keys (keys picked) db.tasks)

    run_tasks-Leaves :
        0 < num_tasks
        → AllRunnable db.tasks
        → Leaves (keys picked) db.tasks (run_tasks settings json s num_tasks db)
    unfolding run_tasks
    run_tasks-Leaves positive r =
        let ((executed, runs), e) =
          run_each-IsRunnable settings json registered_tasks s u picked (picked-IsRunnable r) in
        let entries : Entries picked (ok (executed, runs)) =
          subst (Entries picked) e (run_each-Entries settings json s picked) in
        let at_work : ltb num_tasks 1 ≡ false = ground arith in
        rw (run_tasks, at_work, e, u.quiet (record db { tasks = left }))
          (if_any-Leaves picked db.tasks executed runs (record db { tasks = left }) entries.1
            left-IsAligned (left-IsRunnable r))

    leaves_less :
        (runs : List AbstractTaskRun) (after : Database) (row : ℕ × Task)
        → IsUnique (keys db.tasks)
        → run_tasks settings json s num_tasks db ≡ (ok runs, after)
        → IsAligned (keys picked) db.tasks after.tasks
        → In row picked
        → attempts_left after.tasks < attempts_left db.tasks
    leaves_less runs after row unique returned aligned i =
        let found = get_tasks_to_process-IsPicked s.busy s.now num_tasks db.tasks in
        let source = All-In (IsPicked s.busy s.now db.tasks) row picked found i in
        let some_row =
          count_in-positive (keys picked) row.0 source.queued db.tasks source.stored
            (has_key-In row.0 row.1 picked i) in
        let reduced = All_of_In (IsReduced (keys picked) db.tasks) after.tasks (λ row' j k.
          IsWritten-IsReduced s.busy s.now picked db.tasks row' unique found
            (run_tasks-IsWritten settings json s num_tasks db after runs row' returned j k)) in
        let less =
          attempts_left-le (keys picked) db.tasks db.tasks after.tasks aligned reduced
            (All_of_In (λ row. In row db.tasks) db.tasks (λ row j. j)) in
        omega arith

    none_waiting : 0 < num_tasks → picked ≡ [] → get_num_waiting_tasks s.now db.tasks ≡ 0
    none_waiting positive empty =
        let all = pick-waiting s.now num_tasks db.tasks in
        let same : length picked ≡ min num_tasks (get_num_waiting_tasks s.now db.tasks) =
          rw u.alone all in
        let none_picked : length picked ≡ 0 = ap length empty in omega arith

  -- One of the rounds finds that no task is waiting, and those before it return.
  pub data FindsNone : List (Surroundings json) → Database → Type 0 where
    at_once :
        {s : Surroundings json} {rounds : List (Surroundings json)} {db : Database}
        → get_num_waiting_tasks s.now db.tasks ≡ 0
        → FindsNone (s ∷ rounds) db
    later :
        {s : Surroundings json} {rounds : List (Surroundings json)} {db : Database}
        (runs : List AbstractTaskRun) (after : Database)
        → run_tasks settings json s num_tasks db ≡ (ok runs, after)
        → FindsNone rounds after
        → FindsNone (s ∷ rounds) db

  -- A worker with tasks that are registered, parse and have a timeout, and that calls run_tasks more often
  -- than there are attempts left for its tasks, three for a new one, comes to a round that finds no task
  -- waiting; until then every call returns. No other transaction holds a row, neither the tasks
  -- themselves nor other processes touch the database, and no task ends by a BaseException that is no
  -- Exception; the calls may come at any time, and a task may return, raise an Exception, back off,
  -- overrun or never end.
  pub run_tasks-FindsNone :
      (rounds : List (Surroundings json)) (db : Database)
      → 0 < num_tasks
      → All (IsUndisturbed settings json registered_tasks) rounds
      → AllRunnable db.tasks
      → IsUnique (keys db.tasks)
      → attempts_left db.tasks < length rounds
      → FindsNone rounds db
  run_tasks-FindsNone [] db positive u r unique enough = absurd (omega arith)
  run_tasks-FindsNone (s ∷ rounds) db positive u r unique enough =
      let l = run_tasks-Leaves s u.0 db positive r in
      elim (first_or_none (picked s u.0 db)) [
        | inl empty ↦ at_once (none_waiting s u.0 db positive empty)
        | inr (row, i) ↦
            let less = leaves_less s u.0 db l.runs l.after row unique l.returned l.aligned i in
            later l.runs l.after l.returned (
              run_tasks-FindsNone rounds l.after positive u.1 l.runnable
                (rw (keys-IsAligned (keys (picked s u.0 db)) db.tasks l.after.tasks l.aligned)
                  unique)
                (omega arith))
      ]
