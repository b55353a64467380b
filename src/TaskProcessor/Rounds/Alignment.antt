-- ===== src/TaskProcessor/Rounds/Alignment.antt =====
-- Two states of the table of tasks, row by row: the same keys, and no change under the keys that are not
-- of the batch.
use flagsmith_common.Base.{
  ℕ, ◌≡◌, refl, inl, inr, true, false, List, [], ◌∷◌, Bool-cases, ◌==◌, ==_iff, All,
}
use flagsmith_common.Base.Table.{Table, update, keys, has_key}
use flagsmith_common.TaskProcessor.Models.{Task}
use flagsmith_common.TaskProcessor.Queue.Locking.{lock_keys}
use flagsmith_common.TaskProcessor.Processor.{store_result, bulk_update}

-- `rows'` are `rows` with changes under the keys `ks` only.
abbrev pub IsAligned : List ℕ → Table Task → Table Task → Type 0
IsAligned ks [] [] = Unit
IsAligned ks ((k, t) ∷ rows) ((k', t') ∷ rows') =
    (k' ≡ k) × (has_key k ks ≡ false → t' ≡ t) × IsAligned ks rows rows'
IsAligned ks _ _ = ⊥

pub IsAligned-lock_keys : (ks : List ℕ) (rows : Table Task) → IsAligned ks rows (lock_keys ks rows)
unfolding lock_keys
IsAligned-lock_keys ks [] = tt
IsAligned-lock_keys ks ((k, t) ∷ rows) = (refl, (λ e. rw e refl), IsAligned-lock_keys ks rows)

IsAligned-update :
    (ks : List ℕ) (k : ℕ) (f : Task → Task) (rows rows' : Table Task)
    → has_key k ks ≡ true
    → IsAligned ks rows rows'
    → IsAligned ks rows (update k f rows')
unfolding update
IsAligned-update ks k f [] [] e h = tt
IsAligned-update ks k f [] (row ∷ rows') e h = h
IsAligned-update ks k f (row ∷ rows) [] e h = h
IsAligned-update ks k f ((j, t) ∷ rows) ((j', t') ∷ rows') e (same, kept, h) = (
  same,
  (λ other. elim (Bool-cases (j' == k)) [
    | inl here ↦ let p = (==_iff j' k).0 here in absurd (cc)
    | inr there ↦ rw there (kept other)
  ]),
  IsAligned-update ks k f rows rows' e h,
)

pub IsAligned-bulk_update :
    (ks : List ℕ) (executed rows rows' : Table Task)
    → All (λ entry. has_key entry.0 ks ≡ true) executed
    → IsAligned ks rows rows'
    → IsAligned ks rows (bulk_update executed rows')
unfolding bulk_update
IsAligned-bulk_update ks [] rows rows' e h = h
IsAligned-bulk_update ks ((k, after) ∷ executed) rows rows' e h =
    IsAligned-bulk_update ks executed rows (update k (store_result after) rows') e.1
      (IsAligned-update ks k (store_result after) rows rows' e.0 h)

pub keys-IsAligned :
    (ks : List ℕ) (rows rows' : Table Task) → IsAligned ks rows rows' → keys rows' ≡ keys rows
keys-IsAligned ks [] [] h = refl
keys-IsAligned ks [] (row ∷ rows') h = absurd h
keys-IsAligned ks (row ∷ rows) [] h = absurd h
keys-IsAligned ks ((k, t) ∷ rows) ((k', t') ∷ rows') (same, kept, h) =
    let ih = keys-IsAligned ks rows rows' h in cc
