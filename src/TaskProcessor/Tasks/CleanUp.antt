-- ===== src/TaskProcessor/Tasks/CleanUp.antt =====
-- The deletion of old tasks: its loop ends, and it deletes the old tasks and no others.
use flagsmith_common.Base.{
  ℕ, zero, suc, ◌<◌, ◌≡◌, refl, sym, ap, subst, ◌∙◌, ◌≢◌, ◌⊎◌, inl, inr, Bool, true, not, some, [],
  ◌∷◌, arith, All, All-In, All-take, All-filter, All_of_In, All-filter_of, In, filter, filter-In,
  filter-filter, filter-not, length, length-filter-filter-lt, take, ◌==◌, ==_iff, ==_refl,
  Bool-cases,
}
use flagsmith_common.Base.Table.{Table, keys, has_key}
use flagsmith_common.TaskProcessor.Settings.{Settings}
use flagsmith_common.TaskProcessor.Models.{Task}
use flagsmith_common.TaskProcessor.Database.{Database}
use flagsmith_common.TaskProcessor.Processor.{if_any}
use flagsmith_common.TaskProcessor.Tasks.{
  is_old_task, batch, is_kept, delete_tasks, delete_batches, clean_up_old_tasks,
}

-- No two rows have the same key.
abbrev pub IsKeyed : Table Task → Type 0
IsKeyed [] = Unit
IsKeyed ((k, t) ∷ rows) = All (λ row. row.0 ≢ k) rows × IsKeyed rows

IsKeyed-filter : (p : ℕ × Task → Bool) (rows : Table Task) → IsKeyed rows → IsKeyed (filter p rows)
unfolding filter
IsKeyed-filter p [] h = tt
IsKeyed-filter p ((k, t) ∷ rows) h = elim (Bool-cases (p (k, t))) [
  | inl e ↦ rw e (All-filter_of (λ row. row.0 ≢ k) p rows h.0, IsKeyed-filter p rows h.1)
  | inr e ↦ rw e (IsKeyed-filter p rows h.1)
]

-- Two rows with one key are one row.
one_row :
    (a b : ℕ × Task) (rows : Table Task) → IsKeyed rows → In a rows → In b rows → a.0 ≡ b.0 → a ≡ b
one_row a b [] h i j e = absurd i
one_row a b ((k, t) ∷ rows) h (inl p) (inl q) e = p ∙ sym q
one_row a b ((k, t) ∷ rows) h (inl p) (inr j) e =
    absurd (All-In (λ row. row.0 ≢ k) b rows h.0 j (sym e ∙ ap (λ (r : ℕ × Task). r.0) p))
one_row a b ((k, t) ∷ rows) h (inr i) (inl q) e =
    absurd (All-In (λ row. row.0 ≢ k) a rows h.0 i (e ∙ ap (λ (r : ℕ × Task). r.0) q))
one_row a b ((k, t) ∷ rows) h (inr i) (inr j) e = one_row a b rows h.1 i j e

-- A key among those of some rows is the key of one of them.
has_key-In :
    (k : ℕ) (rows : Table Task)
    → has_key k (keys rows) ≡ true
    → (row : ℕ × Task) × In row rows × (row.0 ≡ k)
has_key-In k [] h = cc
has_key-In k ((j, t) ∷ rows) h = elim (Bool-cases (j == k)) [
  | inl e ↦ ((j, t), inl refl, (==_iff j k).0 e)
  | inr e ↦ let (row, i, p) = has_key-In k rows (rw e at h) in (row, inr i, p)
]

module _ (settings : Settings) (now : ℕ) where
  abbrev IsOld : ℕ × Task → Type 0
  IsOld row = is_old_task settings now row ≡ true

  -- The tasks that are to stay.
  abbrev pub kept : Table Task → Table Task
  kept tasks = filter (λ row. not (is_old_task settings now row)) tasks

  abbrev remaining : Table Task → ℕ
  remaining tasks = length (filter (is_old_task settings now) tasks)

  batch-IsOld :
      (tasks : Table Task) → All (λ row. IsOld row × In row tasks) (batch settings now tasks)
  batch-IsOld tasks =
      All-take (λ row. IsOld row × In row tasks) settings.task_delete_batch_size _
        (All_of_In (λ row. IsOld row × In row tasks) (filter (is_old_task settings now) tasks)
          (λ row i. (
            All-In IsOld row _ (All-filter (is_old_task settings now) tasks) i,
            filter-In (is_old_task settings now) row tasks i,
          )))

  -- A task that is to stay is not in a batch.
  kept-is_kept :
      (tasks : Table Task)
      → IsKeyed tasks
      → All
          (λ row.
            not (is_old_task settings now row) ≡ true
            → is_kept (keys (batch settings now tasks)) row ≡ true)
          tasks
  kept-is_kept tasks keyed =
      All_of_In
        (λ row.
          not (is_old_task settings now row) ≡ true
          → is_kept (keys (batch settings now tasks)) row ≡ true)
        tasks
        (λ row i young. elim (Bool-cases (has_key row.0 (keys (batch settings now tasks)))) [
          | inr e ↦ rw e refl
          | inl e ↦
              let (other, j, same) = has_key-In row.0 (batch settings now tasks) e in
              let (old, k) = All-In (λ r. IsOld r × In r tasks) other _ (batch-IsOld tasks) j in
              absurd (clash row (subst IsOld (one_row other row tasks keyed k i same) old) young)
        ])
    where
      clash : (row : ℕ × Task) → IsOld row → not (is_old_task settings now row) ≡ true → ⊥
      clash row old young = let y = rw old at young in cc

  kept-round :
      (tasks : Table Task)
      → IsKeyed tasks
      → kept (filter (is_kept (keys (batch settings now tasks))) tasks) ≡ kept tasks
  kept-round tasks keyed =
      filter-filter (λ row. not (is_old_task settings now row))
        (is_kept (keys (batch settings now tasks))) tasks (kept-is_kept tasks keyed)

  take-cases :
      (n : ℕ) (rows : Table Task)
      → 0 < n
      → (rows ≡ []) ⊎ ((row : ℕ × Task) × (rest : Table Task) × (take n rows ≡ row ∷ rest))
  take-cases n [] h = inl refl
  take-cases zero (x ∷ rows) h = absurd (omega arith)
  take-cases (suc n) (x ∷ rows) h = inr (x, take n rows, refl)

  if_any-some :
      {A : Type 0} (rows : Table Task) (row : ℕ × Task) (rest : Table Task) (a b : A)
      → rows ≡ row ∷ rest
      → if_any rows a b ≡ a
  if_any-some rows row rest a b e = rw e refl

  if_any-take_none :
      {A : Type 0} (n : ℕ) (rows : Table Task) (a b : A) → rows ≡ [] → if_any (take n rows) a b ≡ b
  if_any-take_none zero rows a b e = refl
  if_any-take_none (suc n) rows a b e = rw e refl

  -- Each DELETE that finds a task leaves fewer of them.
  remaining-round :
      (tasks : Table Task) (row : ℕ × Task) (rest : Table Task)
      → batch settings now tasks ≡ row ∷ rest
      → remaining (filter (is_kept (keys (batch settings now tasks))) tasks) < remaining tasks
  remaining-round tasks row rest e =
      let found = rw e at (batch-IsOld tasks) in
      let here : has_key row.0 (keys (batch settings now tasks)) ≡ true =
        rw e (ground (arith, ==_refl row.0)) in
      length-filter-filter-lt (is_old_task settings now) (is_kept (keys (batch settings now tasks)))
        row tasks found.0.1 found.0.0 (rw here refl)

  delete_batches-exact :
      (fuel : ℕ) (db : Database)
      → 0 < settings.task_delete_batch_size
      → IsKeyed db.tasks
      → remaining db.tasks < fuel
      → (db' : Database) × (delete_batches settings now fuel db ≡ some db')
        × (db'.tasks ≡ kept db.tasks)
  unfolding delete_batches delete_tasks
  delete_batches-exact zero db size keyed enough = absurd (omega arith)
  delete_batches-exact (suc fuel) db size keyed enough =
      let found = filter (is_old_task settings now) db.tasks in
      let ks = keys (batch settings now db.tasks) in
      let next = delete_tasks ks db in
      elim (take-cases settings.task_delete_batch_size found size) [
        | inl e ↦ (
          db,
          if_any-take_none settings.task_delete_batch_size found
              (delete_batches settings now fuel next) (some db) e,
          sym (filter-not (is_old_task settings now) db.tasks e),
        )
        | inr (row, rest, e) ↦
            let shrinks = remaining-round db.tasks row rest e in
            let (db', done, exact) =
              delete_batches-exact fuel next size (IsKeyed-filter (is_kept ks) db.tasks keyed)
                (omega arith) in
            (
              db',
              if_any-some (batch settings now db.tasks) row rest
                    (delete_batches settings now fuel next) (some db) e
                  ∙ done,
              exact ∙ kept-round db.tasks keyed,
            )
      ]

-- With a batch size above 0 and more rounds than there are old tasks, the loop of
-- clean_up_old_tasks ends, and it has deleted the old tasks and no others.
pub clean_up_old_tasks-exact :
    (settings : Settings) (now fuel : ℕ) (db : Database)
    → settings.enable_clean_up_old_tasks ≡ true
    → 0 < settings.task_delete_batch_size
    → IsKeyed db.tasks
    → length (filter (is_old_task settings now) db.tasks) < fuel
    → (db' : Database) × (clean_up_old_tasks settings now fuel db ≡ some db')
      × (db'.tasks ≡ filter (λ row. not (is_old_task settings now row)) db.tasks)
unfolding clean_up_old_tasks
clean_up_old_tasks-exact settings now fuel db enabled size keyed enough =
    let (db', done, exact) = delete_batches-exact settings now fuel db size keyed enough in
    (db', simp enabled done, exact)
