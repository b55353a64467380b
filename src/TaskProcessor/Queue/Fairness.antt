-- ===== src/TaskProcessor/Queue/Fairness.antt =====
-- The order and the number of the tasks that get_tasks_to_process returns.
use Prim.Native.Nat.{min}
use flagsmith_common.Base.{
  ℕ, suc, ◌≡◌, refl, ap, ◌⊎◌, inl, inr, Bool, true, false, [], ◌∷◌, arith, All, In, All-In, filter,
  In-filter, take, drop, length, length-take, In-take_or_drop,
}
use flagsmith_common.Base.Table.{Table}
use flagsmith_common.Base.Order.{
  lex, order_by, order_by-IsOrdered, In-order_by, take-before_drop, AllBehind, length-order_by,
}
use flagsmith_common.TaskProcessor.Models.{Task}
use flagsmith_common.TaskProcessor.Queue.{
  can_pick, task_key, lock_task, select_tasks, get_tasks_to_process, get_num_waiting_tasks,
}
use flagsmith_common.TaskProcessor.Queue.Picks.{lock_all, returned}

In-lock_all :
    (row : ℕ × Task) (rows : Table Task) → In row rows → In (row.0, lock_task row.1) (lock_all rows)
In-lock_all row [] i = absurd i
In-lock_all row ((k, t) ∷ rows) (inl e) = inl (ap (λ (r : ℕ × Task). (r.0, lock_task r.1)) e)
In-lock_all row ((k, t) ∷ rows) (inr i) = inr (In-lock_all row rows i)

length-lock_all : (rows : Table Task) → length (lock_all rows) ≡ length rows
length-lock_all [] = refl
length-lock_all ((k, t) ∷ rows) = ap suc (length-lock_all rows)

-- `row` comes no earlier in the queue than any of `picks`.
abbrev pub NotOvertaken : ℕ × Task → Table Task → Type 0
NotOvertaken row picks = All (λ picked. lex (task_key picked) (task_key row) ≡ true) picks

lock_all-NotOvertaken :
    (row : ℕ × Task) (rest rows : Table Task)
    → In row rest
    → All (λ x. AllBehind task_key x rest) rows
    → NotOvertaken row (lock_all rows)
lock_all-NotOvertaken row rest [] i h = tt
lock_all-NotOvertaken row rest ((k, t) ∷ rows) i h = (
  All-In (λ y. lex (task_key (k, t)) (task_key y) ≡ true) row rest h.0 i,
  lock_all-NotOvertaken row rest rows i h.1,
)

module _ (busy : ℕ → Bool) (now num_tasks : ℕ) (tasks : Table Task) where
  abbrev queue : Table Task
  queue = order_by task_key (filter (can_pick busy now) tasks)

  -- A row that could be picked is picked, or it comes no earlier in the order (priority,
  -- scheduled_for, created_at) than any row that is picked instead.
  pub pick_fair :
      (row : ℕ × Task)
      → In row tasks
      → can_pick busy now row ≡ true
      → In (row.0, lock_task row.1) (get_tasks_to_process busy now num_tasks tasks).0
        ⊎ NotOvertaken row (get_tasks_to_process busy now num_tasks tasks).0
  unfolding select_tasks
  pick_fair row i h =
      let waits = In-order_by task_key row _ (In-filter (can_pick busy now) row tasks i h) in
      rw (returned busy now num_tasks tasks) (elim (In-take_or_drop row num_tasks queue waits) [
        | inl j ↦ inl (In-lock_all row _ j)
        | inr j ↦ inr (
            lock_all-NotOvertaken row (drop num_tasks queue) (take num_tasks queue) j (
              take-before_drop task_key num_tasks queue
                (order_by-IsOrdered task_key (filter (can_pick busy now) tasks))))
      ])

  pub length-pick :
      length (get_tasks_to_process busy now num_tasks tasks).0
      ≡ min num_tasks (length (filter (can_pick busy now) tasks))
  unfolding select_tasks
  length-pick =
      rw (returned busy now num_tasks tasks)
        (rw (length-lock_all, length-take, length-order_by) refl)

can_pick-idle :
    (now : ℕ) (tasks : Table Task)
    → length (filter (can_pick (λ _. false) now) tasks) ≡ get_num_waiting_tasks now tasks
unfolding get_num_waiting_tasks
can_pick-idle now [] = refl
can_pick-idle now ((k, t) ∷ tasks) = ground (arith, can_pick-idle now tasks)

-- With no other transaction at work, the number of tasks picked is the number that monitoring
-- reports as waiting, up to the limit asked for.
pub pick-waiting :
    (now num_tasks : ℕ) (tasks : Table Task)
    → length (get_tasks_to_process (λ _. false) now num_tasks tasks).0
      ≡ min num_tasks (get_num_waiting_tasks now tasks)
pick-waiting now num_tasks tasks =
    rw (← can_pick-idle now tasks) (length-pick (λ _. false) now num_tasks tasks)
