-- ===== src/TaskProcessor/Workers/Stranding.antt =====
-- A locked task that no worker holds: what is left of a batch when run_tasks raises or its process dies.
use flagsmith_common.Base.{
  ℕ, ◌+◌, ◌<◌, ◌≡◌, refl, Bool, true, false, List, [], ◌∷◌, arith, All, All-append, All-filter_of,
  Bool-cases, ◌==◌, ==_iff, ==_refl, not, inl, inr,
}
use flagsmith_common.Base.Table.{Table, keys, has_key, insert, delete}
use flagsmith_common.TaskProcessor.Models.{Task}
use flagsmith_common.TaskProcessor.Queue.{get_tasks_to_process}
use flagsmith_common.TaskProcessor.Queue.Locking.{AllLocked, pick-left, pick-Avoids}
use flagsmith_common.TaskProcessor.Processor.{bulk_update}
use flagsmith_common.TaskProcessor.Workers.{
  System, Step, pick, write, give_up, enqueue, clean_up, Reach, start, step, Removes, All-Removes,
}
use flagsmith_common.TaskProcessor.Workers.Exclusion.{
  lock_keys-All, bulk_update-All, Avoids-Disjoint,
}

-- The task is locked, if it is there at all, and no worker holds it.
pub record IsStranded (k : ℕ) (σ : System) : Type 0 where
  pub locked : AllLocked (k ∷ []) σ.tasks
  pub not_held : All (λ batch. has_key k batch ≡ false) σ.held
  pub used : k < σ.next_id

In-Removes :
    (P : List ℕ → Type 0) (batch : List ℕ) {held rest : List (List ℕ)}
    → Removes batch held rest
    → All P held
    → P batch
In-Removes P batch Removes.here h = h.0
In-Removes P batch (Removes.there r) h = In-Removes P batch r h.1

self_key : (k : ℕ) → has_key k (k ∷ []) ≡ true
self_key k = rw ==_refl refl

only_key : (k j : ℕ) → has_key j (k ∷ []) ≡ true → k ≡ j
only_key k j e = elim (Bool-cases (k == j)) [
  | inl f ↦ (==_iff k j).0 f
  | inr f ↦ let g = rw f at e in absurd (cc)
]

module _ (k : ℕ) (σ : System) (s : IsStranded k σ) where
  not_picked :
      (busy : ℕ → Bool) (now num_tasks : ℕ)
      → has_key k (keys (get_tasks_to_process busy now num_tasks σ.tasks).0) ≡ false
  not_picked busy now num_tasks =
      let out = (get_tasks_to_process busy now num_tasks σ.tasks).0 in
      elim (Bool-cases (has_key k (keys out))) [
        | inl e ↦
            let f =
              Avoids-Disjoint (k ∷ []) out
                (pick-Avoids (k ∷ []) busy now num_tasks σ.tasks s.locked) k e in
            let here = self_key k in absurd (cc)
        | inr e ↦ e
      ]

  pick-IsStranded :
      (busy : ℕ → Bool) (now num_tasks : ℕ)
      → IsStranded k (record σ {
        tasks = (get_tasks_to_process busy now num_tasks σ.tasks).1;
        held = keys (get_tasks_to_process busy now num_tasks σ.tasks).0 ∷ σ.held;
      })
  pick-IsStranded busy now num_tasks = record {
    locked =
        rw (pick-left busy now num_tasks σ.tasks)
          (lock_keys-All _ (λ j t _ _. refl) _ σ.tasks s.locked);
    not_held = (not_picked busy now num_tasks, s.not_held);
    used = s.used;
  }

  write-IsStranded :
      (executed : Table Task) {rest : List (List ℕ)}
      → Removes (keys executed) σ.held rest
      → IsStranded k (record σ { tasks = bulk_update executed σ.tasks; held = rest })
  write-IsStranded executed r = record {
    locked =
        bulk_update-All _ executed σ.tasks
          (λ j after row e _ e'.
            let free = In-Removes (λ batch. has_key k batch ≡ false) (keys executed) r s.not_held in
            let same = only_key k j e' in absurd (cc))
          s.locked;
    not_held = All-Removes _ (keys executed) r s.not_held;
    used = s.used;
  }

  enqueue-IsStranded :
      (task : Task)
      → IsStranded k (record σ { next_id = σ.next_id + 1; tasks = insert σ.next_id task σ.tasks })
  unfolding insert
  enqueue-IsStranded task = record {
    locked =
        All-append _ σ.tasks ((σ.next_id, task) ∷ []) s.locked
          ((λ e. let same = only_key k σ.next_id e in let l = s.used in absurd (omega arith)), tt);
    not_held = s.not_held;
    used = let l = s.used in omega arith;
  }

Step-IsStranded : (k : ℕ) {σ τ : System} → Step σ τ → IsStranded k σ → IsStranded k τ
unfolding delete
Step-IsStranded k {σ} (pick busy now num_tasks) s = pick-IsStranded k σ s busy now num_tasks
Step-IsStranded k {σ} (write executed r) s = write-IsStranded k σ s executed r
Step-IsStranded k {σ} (give_up batch r) s = record {
  locked = s.locked;
  not_held = All-Removes _ batch r s.not_held;
  used = s.used;
}
Step-IsStranded k {σ} (enqueue task) s = enqueue-IsStranded k σ s task
Step-IsStranded k {σ} (clean_up j) s = record {
  locked = All-filter_of _ (λ row. not (row.0 == j)) σ.tasks s.locked;
  not_held = s.not_held;
  used = s.used;
}

-- Once a task is locked and no worker holds it, this stays so after any steps of any workers in any order:
-- no worker ever takes it again, and nothing unlocks it.
pub Reach-IsStranded : (k : ℕ) {σ τ : System} → IsStranded k σ → Reach σ τ → IsStranded k τ
Reach-IsStranded k s start = s
Reach-IsStranded k s (step r st) = Step-IsStranded k st (Reach-IsStranded k s r)
