-- ===== src/TaskProcessor/Queue/Locking.antt =====
-- What get_tasks_to_process leaves in the table, and why no task is returned twice.
use flagsmith_common.Base.{
  ℕ, ◌≡◌, refl, sym, ap, ◌∙◌, inl, inr, Bool, true, false, List, [], ◌∷◌, arith, All, All-In,
  All-map, Bool-cases, if◌then◌else◌,
}
use flagsmith_common.Base.Table.{Table, update, keys, has_key}
use flagsmith_common.TaskProcessor.Models.{Task}
use flagsmith_common.TaskProcessor.Queue.{
  is_due, lock_task, select_tasks, lock_rows, get_tasks_to_process,
}
use flagsmith_common.TaskProcessor.Queue.Picks.{
  lock_all, returned, get_tasks_to_process-IsPicked, IsPicked,
}

-- The table with the rows under the given keys locked, and the others as they were.
unfoldable pub lock_keys : List ℕ → Table Task → Table Task
lock_keys ks [] = []
lock_keys ks ((k, t) ∷ rows) = (k, if has_key k ks then lock_task t else t) ∷ lock_keys ks rows

lock_keys-update :
    (k : ℕ) (ks : List ℕ) (rows : Table Task)
    → lock_keys ks (update k lock_task rows) ≡ lock_keys (k ∷ ks) rows
unfolding lock_keys update
lock_keys-update k ks [] = refl
lock_keys-update k ks ((j, t) ∷ rows) = ground (arith, lock_keys-update k ks rows)

lock_keys-nil : (rows : Table Task) → lock_keys [] rows ≡ rows
unfolding lock_keys
lock_keys-nil [] = refl
lock_keys-nil ((k, t) ∷ rows) = ap (λ l. (k, t) ∷ l) (lock_keys-nil rows)

lock_rows-left :
    (selected tasks : Table Task) → (lock_rows selected tasks).1 ≡ lock_keys (keys selected) tasks
unfolding lock_rows
lock_rows-left [] tasks = sym (lock_keys-nil tasks)
lock_rows-left ((k, t) ∷ selected) tasks =
    lock_rows-left selected (update k lock_task tasks) ∙ lock_keys-update k (keys selected) tasks

keys-lock_all : (rows : Table Task) → keys (lock_all rows) ≡ keys rows
keys-lock_all [] = refl
keys-lock_all ((k, t) ∷ rows) = ap (λ l. k ∷ l) (keys-lock_all rows)

-- In the table that a pick leaves, the returned rows are locked and no other row has changed.
pub pick-left :
    (busy : ℕ → Bool) (now num_tasks : ℕ) (tasks : Table Task)
    → (get_tasks_to_process busy now num_tasks tasks).1
      ≡ lock_keys (keys (get_tasks_to_process busy now num_tasks tasks).0) tasks
unfolding get_tasks_to_process
pick-left busy now num_tasks tasks =
    lock_rows-left (select_tasks busy now num_tasks tasks) tasks
    ∙ ap (λ ks. lock_keys ks tasks)
        (sym (ap keys (returned busy now num_tasks tasks) ∙ keys-lock_all _))

-- Every row under one of the keys is locked.
abbrev pub AllLocked : List ℕ → Table Task → Type 0
AllLocked ks rows = All (λ row. has_key row.0 ks ≡ true → row.1.is_locked ≡ true) rows

pub lock_keys-AllLocked : (ks : List ℕ) (rows : Table Task) → AllLocked ks (lock_keys ks rows)
unfolding lock_keys
lock_keys-AllLocked ks [] = tt
lock_keys-AllLocked ks ((k, t) ∷ rows) = (λ h. rw h refl, lock_keys-AllLocked ks rows)

due-is_locked : (now : ℕ) (t : Task) → is_due now t ≡ true → t.is_locked ≡ true → ⊥
due-is_locked now t due locked = ground arith

-- No key of the first list is one of the second.
abbrev pub Avoids : List ℕ → Table Task → Type 0
Avoids ks rows = All (λ row. has_key row.0 ks ≡ false) rows

-- Rows that are locked are not picked.
pub pick-Avoids :
    (ks : List ℕ) (busy : ℕ → Bool) (now num_tasks : ℕ) (tasks : Table Task)
    → AllLocked ks tasks
    → Avoids ks (get_tasks_to_process busy now num_tasks tasks).0
pick-Avoids ks busy now num_tasks tasks h =
    All-map avoids _ (get_tasks_to_process-IsPicked busy now num_tasks tasks)
  where
    avoids : (row : ℕ × Task) → IsPicked busy now tasks row → has_key row.0 ks ≡ false
    avoids row p = elim (Bool-cases (has_key row.0 ks)) [
      | inl e ↦ absurd (
          due-is_locked now p.queued p.due (
            All-In (λ (r : ℕ × Task). has_key r.0 ks ≡ true → r.1.is_locked ≡ true)
              (row.0, p.queued) tasks h p.stored e))
      | inr e ↦ e
    ]

-- Of two picks in a row, whatever the times, the limits and the rows that others hold, the second
-- returns no task that the first returned.
pub pick_twice-Avoids :
    (busy busy' : ℕ → Bool) (now now' num_tasks num_tasks' : ℕ) (tasks : Table Task)
    → let first = get_tasks_to_process busy now num_tasks tasks in
      Avoids (keys first.0) (get_tasks_to_process busy' now' num_tasks' first.1).0
pick_twice-Avoids busy busy' now now' num_tasks num_tasks' tasks =
    let first = get_tasks_to_process busy now num_tasks tasks in
    pick-Avoids (keys first.0) busy' now' num_tasks' first.1
      (rw (pick-left busy now num_tasks tasks) (lock_keys-AllLocked (keys first.0) tasks))
