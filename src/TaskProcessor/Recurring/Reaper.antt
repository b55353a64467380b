-- ===== src/TaskProcessor/Recurring/Reaper.antt =====
-- Picking recurring tasks, and taking over those whose worker is taken for dead.
use flagsmith_common.Base.{
  subst, ℕ, ◌+◌, ◌<◌, ◌≡◌, ◌↔◌, ◌⊎◌, inl, inr, Bool, true, false, some, List, [], ◌∷◌, arith, refl,
  Option-cases, Bool-cases, some_inj, All, All-In, All-map, All_of_In, All-filter, In, In-filter,
  filter, filter-In,
}
use flagsmith_common.Base.Table.{Table}
use flagsmith_common.Base.Order.{
  lex, order_by, order_by-IsOrdered, All-order_by, In-order_by, IsOrdered,
}
use flagsmith_common.TaskProcessor.Models.{RecurringTask, minute}
use flagsmith_common.TaskProcessor.Queue.{
  can_pick_recurring, recurring_key, select_recurring, first_row,
}

module _ (busy : ℕ → Bool) (now : ℕ) (tasks : Table RecurringTask) where
  abbrev candidates : List (ℕ × RecurringTask)
  candidates = filter (can_pick_recurring busy now) tasks

  abbrev queue : List (ℕ × RecurringTask)
  queue = order_by recurring_key candidates

  first_row-first :
      (rows : List (ℕ × RecurringTask)) (row : ℕ × RecurringTask)
      → first_row rows ≡ some row
      → IsOrdered recurring_key rows
      → (P : ℕ × RecurringTask → Type 0) → All P rows
      → P row × All (λ r. (r ≡ row) ⊎ (lex (recurring_key row) (recurring_key r) ≡ true)) rows
  first_row-first [] row h o P p = cc
  first_row-first (r ∷ rows) row h o P p =
      let e = some_inj h in
      (
        subst P e p.0,
        (
          inl e,
          All-map (λ x l. inr (subst (λ y. lex (recurring_key y) (recurring_key x) ≡ true) e l))
              rows o.0,
        ),
      )

  -- The recurring task that is picked could be picked, and no other that could be picked has waited
  -- longer: its last pick is not earlier, and a task that was never picked goes first.
  pub select_recurring-least :
      (picked row : ℕ × RecurringTask)
      → select_recurring busy now tasks ≡ some picked
      → In row tasks
      → can_pick_recurring busy now row ≡ true
      → (can_pick_recurring busy now picked ≡ true)
        × In picked tasks
        × ((row ≡ picked) ⊎ (lex (recurring_key picked) (recurring_key row) ≡ true))
  unfolding select_recurring
  select_recurring-least picked row h i c =
      let ordered = order_by-IsOrdered recurring_key candidates in
      let P =
        λ (row : ℕ × RecurringTask). (can_pick_recurring busy now row ≡ true) × In row tasks in
      let fits : All P candidates = All_of_In P candidates (λ row i. (
        All-In (λ r. can_pick_recurring busy now r ≡ true) row candidates
            (All-filter (can_pick_recurring busy now) tasks) i,
        filter-In (can_pick_recurring busy now) row tasks i,
      )) in
      let (own, rest) =
        first_row-first queue picked h ordered P (All-order_by recurring_key P candidates fits) in
      (
        own.0,
        own.1,
        All-In (λ r. (r ≡ picked) ⊎ (lex (recurring_key picked) (recurring_key r) ≡ true)) row queue
            rest
            (In-order_by recurring_key row candidates
              (In-filter (can_pick_recurring busy now) row tasks i c)),
      )

-- Locked, for at least the timeout less one minute.
abbrev pub IsOverdue : ℕ → RecurringTask → Type 0
IsOverdue now t =
    (t.is_locked ≡ true)
    × ((locked_at : ℕ) × (t.locked_at ≡ some locked_at) × (locked_at + t.timeout < now + minute))

-- Enabled, and unlocked or overdue.
abbrev pub IsAvailable : ℕ → RecurringTask → Type 0
IsAvailable now t = (t.is_disabled ≡ false) × ((t.is_locked ≡ false) ⊎ IsOverdue now t)

can_pick_recurring-IsAvailable :
    (busy : ℕ → Bool) (now k : ℕ) (t : RecurringTask)
    → (can_pick_recurring busy now (k, t) ≡ true) ↔ ((busy k ≡ false) × IsAvailable now t)
can_pick_recurring-IsAvailable busy now k t = elim (Option-cases t.locked_at) [
  | inl never ↦ (λ h. ground arith, λ h. ground arith)
  | inr (locked_at, e) ↦ elim (Bool-cases t.is_locked) [
    | inl l ↦ (
      λ h. (ground arith, (ground arith, inr (l, (locked_at, e, ground arith)))),
      λ h. ground arith,
    )
    | inr u ↦ (λ h. (ground arith, (ground arith, inl u)), λ h. ground arith)
  ]
]

first_row_total :
    (rows : List (ℕ × RecurringTask)) (row : ℕ × RecurringTask)
    → In row rows
    → (picked : ℕ × RecurringTask) × (first_row rows ≡ some picked)
first_row_total [] row i = absurd i
first_row_total (r ∷ rows) row i = (r, refl)

-- While a row stands in the table that no other transaction holds, and that is enabled and unlocked
-- or locked since its timeout less one minute, a row is picked. The picked row is enabled and
-- unlocked or overdue in the same sense, and it is that row or one that has not been picked later.
pub select_recurring_total :
    (busy : ℕ → Bool) (now k : ℕ) (t : RecurringTask) (tasks : Table RecurringTask)
    → busy k ≡ false
    → In (k, t) tasks
    → IsAvailable now t
    → (picked : ℕ × RecurringTask) × (select_recurring busy now tasks ≡ some picked)
      × IsAvailable now picked.1
      × In picked tasks
      × (((k, t) ≡ picked) ⊎ (lex (recurring_key picked) (recurring_key (k, t)) ≡ true))
unfolding select_recurring
select_recurring_total busy now k t tasks free i available =
    let fits = (can_pick_recurring-IsAvailable busy now k t).1 (free, available) in
    let (picked, e) =
      first_row_total (queue busy now tasks) (k, t)
        (In-order_by recurring_key (k, t) (candidates busy now tasks)
          (In-filter (can_pick_recurring busy now) (k, t) tasks i fits)) in
    let (own, stands, least) = select_recurring-least busy now tasks picked (k, t) e i fits in
    (
      picked,
      e,
      ((can_pick_recurring-IsAvailable busy now picked.0 picked.1).0 own).1,
      stands,
      least,
    )
