-- ===== src/TaskProcessor/Workers/Exclusion.antt =====
-- No task is executed by two workers at once, whatever the interleaving.
use flagsmith_common.TaskProcessor.Queue.Picks.{get_tasks_to_process-IsPicked}
use flagsmith_common.Base.{
  inl, inr, All-In, All-zip, ℕ, ◌+◌, ◌<◌, ◌≡◌, refl, sym, Bool, true, List, [], ◌∷◌, arith, All,
  All-map, All-append, All-filter_of, Bool-cases, ◌==◌, ==_iff, ==_refl, not,
}
use flagsmith_common.Base.Table.{Table, keys, has_key, insert, delete, update, All-update, AllBelow}
use flagsmith_common.TaskProcessor.Models.{Task}
use flagsmith_common.TaskProcessor.Queue.{get_tasks_to_process, lock_task}
use flagsmith_common.TaskProcessor.Queue.Locking.{
  AllLocked, Avoids, lock_keys, pick-left, lock_keys-AllLocked, pick-Avoids,
}
use flagsmith_common.TaskProcessor.Processor.{store_result, bulk_update}
use flagsmith_common.TaskProcessor.Workers.{
  System, Step, pick, write, give_up, enqueue, clean_up, Reach, start, step, Disjoint, AllDisjoint,
  KeysBelow, IsSafe, Removes, All-Removes, AllDisjoint-Removes, Removes-Disjoint,
}

-- A predicate on rows that only looks at the key survives a pick.
pub lock_keys-All :
    (P : ℕ × Task → Type 0)
    → ((k : ℕ) (t : Task) → P (k, t) → P (k, lock_task t))
    → (ks : List ℕ) (rows : Table Task) → All P rows
    → All P (lock_keys ks rows)
unfolding lock_keys
lock_keys-All P keep ks [] h = tt
lock_keys-All P keep ks ((k, t) ∷ rows) h = elim (Bool-cases (has_key k ks)) [
  | inl e ↦ rw e (keep k t h.0, lock_keys-All P keep ks rows h.1)
  | inr e ↦ rw e (h.0, lock_keys-All P keep ks rows h.1)
]

pub bulk_update-All :
    (P : ℕ × Task → Type 0) (executed rows : Table Task)
    → ((k : ℕ) (after row : Task)
        → has_key k (keys executed) ≡ true
        → P (k, row)
        → P (k, store_result after row))
    → All P rows
    → All P (bulk_update executed rows)
unfolding bulk_update
bulk_update-All P [] rows keep h = h
bulk_update-All P ((k, after) ∷ executed) rows keep h =
    bulk_update-All P executed (update k (store_result after) rows)
      (λ j u row e. keep j u row (ground (arith, e)))
      (All-update P k (store_result after) (λ row. keep k after row (rw ==_refl refl)) rows h)

pub Avoids-Disjoint : (ks : List ℕ) (rows : Table Task) → Avoids ks rows → Disjoint (keys rows) ks
Avoids-Disjoint ks [] h k e = cc
Avoids-Disjoint ks ((j, t) ∷ rows) h k e = elim (Bool-cases (j == k)) [
  | inl here ↦ rw (sym ((==_iff j k).0 here)) h.0
  | inr other ↦ Avoids-Disjoint ks rows h.1 k (rw other at e)
]

KeysBelow-pick : (n : ℕ) (rows : Table Task) → AllBelow n rows → KeysBelow n (keys rows)
KeysBelow-pick n [] h k e = cc
KeysBelow-pick n ((j, t) ∷ rows) h k e = elim (Bool-cases (j == k)) [
  | inl here ↦ rw (sym ((==_iff j k).0 here)) h.0
  | inr other ↦ KeysBelow-pick n rows h.1 k (rw other at e)
]

abbrev LockedIn : List ℕ → ℕ × Task → Type 0
LockedIn batch row = has_key row.0 batch ≡ true → row.1.is_locked ≡ true

module _ (busy : ℕ → Bool) (now num_tasks : ℕ) (σ : System) (s : IsSafe σ) where
  abbrev out : Table Task
  out = (get_tasks_to_process busy now num_tasks σ.tasks).0

  pick-keeps :
      (P : ℕ × Task → Type 0)
      → ((k : ℕ) (t : Task) → P (k, t) → P (k, lock_task t))
      → All P σ.tasks
      → All P (get_tasks_to_process busy now num_tasks σ.tasks).1
  pick-keeps P keep h =
      rw (pick-left busy now num_tasks σ.tasks) (lock_keys-All P keep (keys out) σ.tasks h)

  out-AllBelow : AllBelow σ.next_id out
  out-AllBelow =
      All-map (λ row p. All-In (λ r. r.0 < σ.next_id) (row.0, p.queued) σ.tasks s.below p.stored)
        out (get_tasks_to_process-IsPicked busy now num_tasks σ.tasks)

  pick-IsSafe : IsSafe (record σ {
    tasks = (get_tasks_to_process busy now num_tasks σ.tasks).1;
    held = keys out ∷ σ.held;
  })
  pick-IsSafe = record {
    locked = (
      rw (pick-left busy now num_tasks σ.tasks) (lock_keys-AllLocked (keys out) σ.tasks),
      All-map (λ batch h. pick-keeps (LockedIn batch) (λ k t _ _. refl) h) σ.held s.locked,
    );
    disjoint = (
      All-map
          (λ batch h. Avoids-Disjoint batch out (pick-Avoids batch busy now num_tasks σ.tasks h))
          σ.held s.locked,
      s.disjoint,
    );
    fresh = (KeysBelow-pick σ.next_id out out-AllBelow, s.fresh);
    below = pick-keeps (λ row. row.0 < σ.next_id) (λ k t h. h) s.below;
  }

bulk_update-AllLocked :
    (executed rows : Table Task) (batch : List ℕ)
    → Disjoint (keys executed) batch
    → AllLocked batch rows
    → AllLocked batch (bulk_update executed rows)
bulk_update-AllLocked executed rows batch d h =
    bulk_update-All (LockedIn batch) executed rows (λ k after row e _ e'. let f = d k e in cc) h

write-IsSafe :
    (executed : Table Task) (σ : System) {rest : List (List ℕ)}
    → Removes (keys executed) σ.held rest
    → IsSafe σ
    → IsSafe (record σ { tasks = bulk_update executed σ.tasks; held = rest })
write-IsSafe executed σ {rest} r s = record {
  locked =
      All-zip (λ batch d h. bulk_update-AllLocked executed σ.tasks batch d h) rest
        (Removes-Disjoint (keys executed) r s.disjoint)
        (All-Removes (λ batch. AllLocked batch σ.tasks) (keys executed) r s.locked);
  disjoint = AllDisjoint-Removes (keys executed) r s.disjoint;
  fresh = All-Removes (KeysBelow σ.next_id) (keys executed) r s.fresh;
  below =
      bulk_update-All (λ row. row.0 < σ.next_id) executed σ.tasks (λ k after row e h. h) s.below;
}

give_up-IsSafe :
    (batch : List ℕ) (σ : System) {rest : List (List ℕ)}
    → Removes batch σ.held rest
    → IsSafe σ
    → IsSafe (record σ { held = rest })
give_up-IsSafe batch σ r s = record {
  locked = All-Removes (λ b. AllLocked b σ.tasks) batch r s.locked;
  disjoint = AllDisjoint-Removes batch r s.disjoint;
  fresh = All-Removes (KeysBelow σ.next_id) batch r s.fresh;
  below = s.below;
}

enqueue-IsSafe :
    (task : Task) (σ : System)
    → IsSafe σ
    → IsSafe (record σ { next_id = σ.next_id + 1; tasks = insert σ.next_id task σ.tasks })
unfolding insert
enqueue-IsSafe task σ s = record {
  locked =
      All-zip
        (λ batch f h.
          All-append (LockedIn batch) σ.tasks ((σ.next_id, task) ∷ []) h
            ((λ e. absurd (let l = f σ.next_id e in omega arith)), tt))
        σ.held s.fresh s.locked;
  disjoint = s.disjoint;
  fresh = All-map (λ batch f k e. let l = f k e in omega arith) σ.held s.fresh;
  below =
      All-append (λ row. row.0 < σ.next_id + 1) σ.tasks ((σ.next_id, task) ∷ [])
        (All-map (λ row l. omega arith) σ.tasks s.below) (omega arith, tt);
}

clean_up-IsSafe : (k : ℕ) (σ : System) → IsSafe σ → IsSafe (record σ { tasks = delete k σ.tasks })
unfolding delete
clean_up-IsSafe k σ s = record {
  locked =
      All-map (λ batch h. All-filter_of (LockedIn batch) (λ row. not (row.0 == k)) σ.tasks h) σ.held
        s.locked;
  disjoint = s.disjoint;
  fresh = s.fresh;
  below = All-filter_of (λ row. row.0 < σ.next_id) (λ row. not (row.0 == k)) σ.tasks s.below;
}

Step-IsSafe : {σ τ : System} → Step σ τ → IsSafe σ → IsSafe τ
Step-IsSafe {σ} (pick busy now num_tasks) s = pick-IsSafe busy now num_tasks σ s
Step-IsSafe {σ} (write executed r) s = write-IsSafe executed σ r s
Step-IsSafe {σ} (give_up batch r) s = give_up-IsSafe batch σ r s
Step-IsSafe {σ} (enqueue task) s = enqueue-IsSafe task σ s
Step-IsSafe {σ} (clean_up k) s = clean_up-IsSafe k σ s

Reach-IsSafe : {σ τ : System} → IsSafe σ → Reach σ τ → IsSafe τ
Reach-IsSafe s start = s
Reach-IsSafe s (step r st) = Step-IsSafe st (Reach-IsSafe s r)

-- From any table whose keys are below the next one, with no worker at work, and after any steps of
-- any workers in any order: no two workers hold the same task, and each task that one holds is locked.
pub workers_exclude :
    (next_id : ℕ) (tasks : Table Task) (τ : System)
    → AllBelow next_id tasks
    → Reach (record { next_id = next_id; tasks = tasks; held = [] }) τ
    → AllDisjoint τ.held × All (λ batch. AllLocked batch τ.tasks) τ.held
workers_exclude next_id tasks τ below r =
    let safe =
      Reach-IsSafe {σ = record { next_id = next_id; tasks = tasks; held = [] }}
        (record { locked = tt; disjoint = tt; fresh = tt; below = below }) r in
    (safe.disjoint, safe.locked)
