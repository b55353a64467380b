-- ===== src/TaskProcessor/Workers.antt =====
-- Several workers on one table of tasks: what run_tasks does to it, step by step and interleaved.
-- A worker holds the keys of the batch that it executes; picks, writes, insertions by
-- TaskHandler.delay and deletions by the clean-up come in any order.
pub mod Exclusion
pub mod Stranding
use flagsmith_common.Base.{
  ℕ, suc, ◌+◌, ◌<◌, ◌≡◌, refl, sym, ◌∙◌, Bool, true, false, List, [], ◌∷◌, arith, All, All-map,
  All-append, All-filter_of, Bool-cases, ◌==◌, ==_iff, if◌then◌else◌, not, filter, In, inl, inr,
}
use flagsmith_common.Base.Table.{Table, keys, has_key, insert, delete, update, All-update, AllBelow}
use flagsmith_common.TaskProcessor.Models.{Task}
use flagsmith_common.TaskProcessor.Queue.{get_tasks_to_process, lock_task}
use flagsmith_common.TaskProcessor.Queue.Locking.{
  AllLocked, Avoids, lock_keys, pick-left, lock_keys-AllLocked, pick-Avoids,
}
use flagsmith_common.TaskProcessor.Processor.{store_result, bulk_update}

pub record System : Type 0 where
  pub next_id : ℕ
  pub tasks : Table Task
  -- the batches in execution, one for each worker at work
  pub held : List (List ℕ)

-- `batch` is taken out of the first list, which leaves the second.
pub data Removes (batch : List ℕ) : List (List ℕ) → List (List ℕ) → Type 0 where
  here : {rest : List (List ℕ)} → Removes batch (batch ∷ rest) rest
  there :
      {other : List ℕ} {held rest : List (List ℕ)}
      → Removes batch held rest
      → Removes batch (other ∷ held) (other ∷ rest)

pub data Step (σ : System) : System → Type 0 where
  -- get_tasks_to_process
  pick :
      (busy : ℕ → Bool) (now num_tasks : ℕ)
      → Step σ (record σ {
        tasks = (get_tasks_to_process busy now num_tasks σ.tasks).1;
        held = keys (get_tasks_to_process busy now num_tasks σ.tasks).0 ∷ σ.held;
      })
  -- the bulk update of run_tasks
  write :
      (executed : Table Task) {rest : List (List ℕ)}
      → Removes (keys executed) σ.held rest
      → Step σ (record σ { tasks = bulk_update executed σ.tasks; held = rest })
  -- run_tasks raises, or its process dies
  give_up :
      (batch : List ℕ) {rest : List (List ℕ)}
      → Removes batch σ.held rest
      → Step σ (record σ { held = rest })
  -- Task.save of a new object
  enqueue :
      (task : Task)
      → Step σ (record σ { next_id = σ.next_id + 1; tasks = insert σ.next_id task σ.tasks })
  -- the deletion of old tasks
  clean_up : (k : ℕ) → Step σ (record σ { tasks = delete k σ.tasks })

pub data Reach (σ : System) : System → Type 0 where
  start : Reach σ σ
  step : {τ υ : System} → Reach σ τ → Step τ υ → Reach σ υ

abbrev pub Disjoint : List ℕ → List ℕ → Type 0
Disjoint a b = (k : ℕ) → has_key k a ≡ true → has_key k b ≡ false

-- No two of the batches share a key.
abbrev pub AllDisjoint : List (List ℕ) → Type 0
AllDisjoint [] = Unit
AllDisjoint (a ∷ rest) = All (Disjoint a) rest × AllDisjoint rest

abbrev pub KeysBelow : ℕ → List ℕ → Type 0
KeysBelow n ks = (k : ℕ) → has_key k ks ≡ true → k < n

-- What holds between two steps: a row that some worker holds is locked, no two workers hold the same
-- key, and every key in use is below the next one.
pub record IsSafe (σ : System) : Type 0 where
  pub locked : All (λ batch. AllLocked batch σ.tasks) σ.held
  pub disjoint : AllDisjoint σ.held
  pub fresh : All (KeysBelow σ.next_id) σ.held
  pub below : AllBelow σ.next_id σ.tasks

pub All-Removes :
    (P : List ℕ → Type 0) (batch : List ℕ) {held rest : List (List ℕ)}
    → Removes batch held rest
    → All P held
    → All P rest
All-Removes P batch here h = h.1
All-Removes P batch (there r) h = (h.0, All-Removes P batch r h.1)

pub AllDisjoint-Removes :
    (batch : List ℕ) {held rest : List (List ℕ)}
    → Removes batch held rest
    → AllDisjoint held
    → AllDisjoint rest
AllDisjoint-Removes batch here h = h.1
AllDisjoint-Removes batch (there {other = a} r) h =
    (All-Removes (Disjoint a) batch r h.0, AllDisjoint-Removes batch r h.1)

Disjoint-sym : (a b : List ℕ) → Disjoint a b → Disjoint b a
Disjoint-sym a b h k e = elim (Bool-cases (has_key k a)) [
  | inl e' ↦ let f = h k e' in cc
  | inr e' ↦ e'
]

-- The other batches share no key with the one that is taken out.
pub Removes-Disjoint :
    (batch : List ℕ) {held rest : List (List ℕ)}
    → Removes batch held rest
    → AllDisjoint held
    → All (Disjoint batch) rest
Removes-Disjoint batch here h = h.0
Removes-Disjoint batch (there {other = a} {held = held} r) h =
    (Disjoint-sym a batch (Removed r h.0), Removes-Disjoint batch r h.1)
  where
    Removed :
        {held rest : List (List ℕ)}
        → Removes batch held rest
        → All (Disjoint a) held
        → Disjoint a batch
    Removed here g = g.0
    Removed (there q) g = Removed q g.1
