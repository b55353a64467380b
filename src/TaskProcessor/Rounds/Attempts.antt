-- ===== src/TaskProcessor/Rounds/Attempts.antt =====
-- The attempts left, before and after a round.
use flagsmith_common.Base.{
  ℕ, suc, ◌+◌, ◌≤◌, ◌<◌, ◌≡◌, refl, sym, ap, subst, ◌∙◌, inl, inr, Bool, true, false, List, [], ◌∷◌,
  arith, Bool-cases, ==_iff, if◌then◌else◌, All, In, All-In,
}
use flagsmith_common.Base.Table.{Table, keys, has_key}
use flagsmith_common.TaskProcessor.Models.{Task}
use flagsmith_common.TaskProcessor.Queue.{is_due, lock_task}
use flagsmith_common.TaskProcessor.Queue.Picks.{IsPicked}
use flagsmith_common.TaskProcessor.Batches.{IsDone, IsWritten}
use flagsmith_common.TaskProcessor.Rounds.{attempts_of, attempts_left}
use flagsmith_common.TaskProcessor.Rounds.Alignment.{IsAligned}

-- No key stands twice: the primary key.
abbrev pub IsUnique : List ℕ → Type 0
IsUnique [] = Unit
IsUnique (k ∷ ks) = (has_key k ks ≡ false) × IsUnique ks

pub has_key-In :
    (k : ℕ) (t : Task) (rows : Table Task) → In (k, t) rows → has_key k (keys rows) ≡ true
has_key-In k t [] i = absurd i
has_key-In k t ((j, u) ∷ rows) (inl e) =
    let p = ap (λ (r : ℕ × Task). r.0) e in let e' = (==_iff j k).1 (sym p) in rw e' refl
has_key-In k t ((j, u) ∷ rows) (inr i) = ground (arith, has_key-In k t rows i)

pub unique_row :
    (k : ℕ) (a b : Task) (rows : Table Task)
    → IsUnique (keys rows)
    → In (k, a) rows
    → In (k, b) rows
    → a ≡ b
unique_row k a b [] u i j = absurd i
unique_row k a b (row ∷ rows) u (inl e) (inl f) = ap (λ (r : ℕ × Task). r.1) (e ∙ sym f)
unique_row k a b ((l, c) ∷ rows) u (inl e) (inr j) =
    let p = ap (λ (r : ℕ × Task). r.0) e in
    let q = has_key-In k b rows j in let new = u.0 in absurd (cc)
unique_row k a b ((l, c) ∷ rows) u (inr i) (inl f) =
    let p = ap (λ (r : ℕ × Task). r.0) f in
    let q = has_key-In k a rows i in let new = u.0 in absurd (cc)
unique_row k a b (row ∷ rows) u (inr i) (inr j) = unique_row k a b rows u.1 i j

abbrev pub count_in : List ℕ → Table Task → ℕ
count_in ks [] = 0
count_in ks ((k, t) ∷ rows) = let rest = count_in ks rows in if has_key k ks then suc rest else rest

pub count_in-positive :
    (ks : List ℕ) (k : ℕ) (t : Task) (rows : Table Task)
    → In (k, t) rows
    → has_key k ks ≡ true
    → 0 < count_in ks rows
count_in-positive ks k t [] i e = absurd i
count_in-positive ks k t ((j, u) ∷ rows) (inl p) e =
    let q = ap (λ (r : ℕ × Task). r.0) p in let e' : has_key j ks ≡ true = cc in rw e' (omega arith)
count_in-positive ks k t ((j, u) ∷ rows) (inr i) e =
    ground (arith, count_in-positive ks k t rows i e)

-- An execution of a task that was due uses up one of its attempts.
attempts_of-lt :
    (now : ℕ) (queued after : Task)
    → is_due now queued ≡ true
    → IsDone (lock_task queued) after
    → attempts_of after < attempts_of queued
attempts_of-lt now queued after due done = let verdict = done.verdict in ground arith

module _ (ks : List ℕ) (table : Table Task) where
  -- A row of the batch has less attempts left than its row in the table had.
  abbrev pub IsReduced : ℕ × Task → Type 0
  IsReduced row =
      has_key row.0 ks ≡ true → (t : Task) → In (row.0, t) table → attempts_of row.1 < attempts_of t

  pub attempts_left-le :
      (rows rows' : Table Task)
      → IsAligned ks rows rows'
      → All IsReduced rows'
      → All (λ row. In row table) rows
      → attempts_left rows' + count_in ks rows ≤ attempts_left rows
  attempts_left-le [] [] h r i = omega arith
  attempts_left-le [] (row ∷ rows') h r i = absurd h
  attempts_left-le (row ∷ rows) [] h r i = absurd h
  attempts_left-le ((k, t) ∷ rows) ((k', t') ∷ rows') (same, kept, h) r i =
      let ih = attempts_left-le rows rows' h r.1 i.1 in
      elim (Bool-cases (has_key k ks)) [
        | inl e ↦ let less = r.0 (rw same e) t (rw same i.0) in rw e (omega arith)
        | inr e ↦ rw (e, kept e) (omega arith)
      ]

pub IsWritten-IsReduced :
    (busy : ℕ → Bool) (now : ℕ) (picked table : Table Task) (row : ℕ × Task)
    → IsUnique (keys table)
    → All (IsPicked busy now table) picked
    → IsWritten picked row
    → (t : Task) → In (row.0, t) table
    → attempts_of row.1 < attempts_of t
IsWritten-IsReduced busy now picked table row u p w t i =
    let q = All-In (IsPicked busy now table) (row.0, w.before) picked p w.was_picked in
    let same : q.queued ≡ t = unique_row row.0 q.queued t table u q.stored i in
    let done = subst (λ before. IsDone before row.1) q.locked w.done in
    subst (λ t. attempts_of row.1 < attempts_of t) same
      (attempts_of-lt now q.queued row.1 q.due done)
