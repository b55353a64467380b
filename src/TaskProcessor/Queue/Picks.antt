-- ===== src/TaskProcessor/Queue/Picks.antt =====
-- What get_tasks_to_process takes from the queue, in which order, and what it leaves behind.
use flagsmith_common.Base.{
  ℕ, ◌≡◌, refl, ap, Bool, true, false, [], ◌∷◌, arith, All, In, All-In, All_of_In, All-take,
  All-filter, filter, filter-In,
}
use flagsmith_common.Base.Table.{Table, update}
use flagsmith_common.Base.Order.{All-order_by}
use flagsmith_common.TaskProcessor.Models.{Task}
use flagsmith_common.TaskProcessor.Queue.{
  can_pick, task_key, is_due, lock_task, select_tasks, lock_rows, get_tasks_to_process,
}

-- The loop returns the selected rows, each locked.
abbrev pub lock_all : Table Task → Table Task
lock_all [] = []
lock_all ((k, t) ∷ rows) = (k, lock_task t) ∷ lock_all rows

lock_rows-returned :
    (selected tasks : Table Task) → (lock_rows selected tasks).0 ≡ lock_all selected
unfolding lock_rows
lock_rows-returned [] tasks = refl
lock_rows-returned ((k, t) ∷ selected) tasks =
    ap (λ l. (k, lock_task t) ∷ l) (lock_rows-returned selected (update k lock_task tasks))

-- How a returned row stands to the queue: a row of it that was due, that no other transaction held,
-- and that is now locked.
pub record IsPicked (busy : ℕ → Bool) (now : ℕ) (tasks : Table Task) (row : ℕ × Task) : Type 0 where
  pub queued : Task
  pub stored : In (row.0, queued) tasks
  pub due : is_due now queued ≡ true
  pub free : busy row.0 ≡ false
  pub locked : row.1 ≡ lock_task queued

module _ (busy : ℕ → Bool) (now num_tasks : ℕ) (tasks : Table Task) where
  can_pick-due : (k : ℕ) (t : Task) → can_pick busy now (k, t) ≡ true → is_due now t ≡ true
  can_pick-due k t h = ground arith

  can_pick-free : (k : ℕ) (t : Task) → can_pick busy now (k, t) ≡ true → busy k ≡ false
  can_pick-free k t h = ground arith

  abbrev CanStart : ℕ × Task → Type 0
  CanStart row = (can_pick busy now row ≡ true) × In row tasks

  candidates : All CanStart (filter (can_pick busy now) tasks)
  candidates = All_of_In CanStart (filter (can_pick busy now) tasks) (λ row i. (
    All-In (λ r. can_pick busy now r ≡ true) row _ (All-filter (can_pick busy now) tasks) i,
    filter-In (can_pick busy now) row tasks i,
  ))

  selected-CanStart : All CanStart (select_tasks busy now num_tasks tasks)
  unfolding select_tasks
  selected-CanStart = All-take CanStart num_tasks _ (All-order_by task_key CanStart _ candidates)

  lock_all-IsPicked :
      (rows : Table Task) → All CanStart rows → All (IsPicked busy now tasks) (lock_all rows)
  lock_all-IsPicked [] h = tt
  lock_all-IsPicked ((k, t) ∷ rows) h = (
    record {
      queued = t;
      stored = h.0.1;
      due = can_pick-due k t h.0.0;
      free = can_pick-free k t h.0.0;
      locked = refl;
    },
    lock_all-IsPicked rows h.1,
  )

  pub returned :
      (get_tasks_to_process busy now num_tasks tasks).0
      ≡ lock_all (select_tasks busy now num_tasks tasks)
  unfolding get_tasks_to_process
  returned = lock_rows-returned (select_tasks busy now num_tasks tasks) tasks

  -- Each row that a pick returns stands in the table, was due, was held by no other transaction, and
  -- is returned as locked.
  pub get_tasks_to_process-IsPicked :
      All (IsPicked busy now tasks) (get_tasks_to_process busy now num_tasks tasks).0
  get_tasks_to_process-IsPicked = rw returned (lock_all-IsPicked _ selected-CanStart)
