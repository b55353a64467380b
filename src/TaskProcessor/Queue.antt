-- ===== src/TaskProcessor/Queue.antt =====
-- task_processor/managers.py and the SQL functions that it calls, as the last migrations leave them
-- (0011_get_tasks_to_process.sql, 0015_get_recurringtasks_to_process.sql), and monitoring.py.
-- A call runs as one transaction: it is one step. `busy` tells the rows that another transaction
-- holds at that moment, which FOR UPDATE SKIP LOCKED passes over. `now` is NOW().
pub mod Picks
pub mod Fairness
pub mod Locking
use flagsmith_common.Base.{
  ℕ, ◌+◌, Bool, true, false, not, ◌&&◌, ◌||◌, Option, none, some, List, [], ◌∷◌, ◌++◌, take, ltb,
  filter, length,
}
use flagsmith_common.Base.Table.{Table, update}
use flagsmith_common.Base.Order.{order_by, nulls_first, nulls_last}
use flagsmith_common.TaskProcessor.Models.{Task, RecurringTask, minute}

-- column < NOW(), which does not hold of NULL
abbrev pub is_before : Option ℕ → ℕ → Bool
is_before none now = false
is_before (some moment) now = ltb moment now

-- The WHERE clause of get_tasks_to_process, which monitoring.py writes out once more.
abbrev pub is_due : ℕ → Task → Bool
is_due now t =
    ltb t.num_failures 3 && is_before t.scheduled_for now && not t.completed && not t.is_locked

-- ORDER BY priority ASC, scheduled_for ASC, created_at ASC
abbrev pub task_key : ℕ × Task → List ℕ
task_key (k, t) = nulls_last t.priority ++ nulls_last t.scheduled_for ++ t.created_at ∷ []

abbrev pub lock_task : Task → Task
lock_task t = record t { base = record t.base { is_locked = true } }

abbrev pub can_pick : (ℕ → Bool) → ℕ → ℕ × Task → Bool
can_pick busy now (k, t) = is_due now t && not (busy k)

unfoldable pub select_tasks : (ℕ → Bool) → ℕ → ℕ → Table Task → Table Task
unfolding order_by filter
select_tasks busy now num_tasks tasks =
    take num_tasks (order_by task_key (filter (can_pick busy now) tasks))

-- The FOR loop: each selected row is locked in the table and returned as locked.
unfoldable pub lock_rows : Table Task → Table Task → Table Task × Table Task
unfolding update
lock_rows [] tasks = ([], tasks)
lock_rows ((k, t) ∷ selected) tasks =
    let (out, tasks') = lock_rows selected (update k lock_task tasks) in
    ((k, lock_task t) ∷ out, tasks')

-- TaskManager.get_tasks_to_process: the rows returned, and the table left.
unfoldable pub get_tasks_to_process : (ℕ → Bool) → ℕ → ℕ → Table Task → Table Task × Table Task
unfolding select_tasks lock_rows
get_tasks_to_process busy now num_tasks tasks =
    lock_rows (select_tasks busy now num_tasks tasks) tasks

-- locked_at IS NOT NULL AND locked_at < NOW() - timeout + INTERVAL '1 minute'
abbrev pub is_reapable : ℕ → RecurringTask → Bool
is_reapable now t = elim t.locked_at [
  | none ↦ false
  | some locked_at ↦ ltb (locked_at + t.timeout) (now + minute)
]

-- The WHERE clause of get_recurringtasks_to_process.
abbrev pub can_pick_recurring : (ℕ → Bool) → ℕ → ℕ × RecurringTask → Bool
can_pick_recurring busy now (k, t) =
    not t.is_disabled && (not t.is_locked || is_reapable now t) && not (busy k)

-- ORDER BY last_picked_at NULLS FIRST
abbrev pub recurring_key : ℕ × RecurringTask → List ℕ
recurring_key (k, t) = nulls_first t.last_picked_at

-- The row as the client receives it, and the row as it is stored.
abbrev pub lock_recurring : ℕ → RecurringTask → RecurringTask
lock_recurring now t = record t { base = record t.base { is_locked = true }; locked_at = some now }

abbrev pub store_picked : ℕ → RecurringTask → RecurringTask
store_picked now t = record (lock_recurring now t) { last_picked_at = some now }

abbrev pub first_row : List (ℕ × RecurringTask) → Option (ℕ × RecurringTask)
first_row [] = none
first_row (row ∷ rows) = some row

unfoldable pub select_recurring : (ℕ → Bool) → ℕ → Table RecurringTask → Option (ℕ × RecurringTask)
unfolding order_by filter
select_recurring busy now tasks =
    first_row (order_by recurring_key (filter (can_pick_recurring busy now) tasks))

-- RecurringTaskManager.get_task_to_process
unfoldable pub get_task_to_process :
    (ℕ → Bool) → ℕ → Table RecurringTask → Option (ℕ × RecurringTask) × Table RecurringTask
unfolding select_recurring update
get_task_to_process busy now tasks = elim (select_recurring busy now tasks) [
  | none ↦ (none, tasks)
  | some (k, t) ↦ (some (k, lock_recurring now t), update k (store_picked now) tasks)
]

-- monitoring.py
unfoldable pub get_num_waiting_tasks : ℕ → Table Task → ℕ
unfolding filter
get_num_waiting_tasks now tasks = length (filter (λ (k, t). is_due now t) tasks)
