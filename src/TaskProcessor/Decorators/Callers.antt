-- ===== src/TaskProcessor/Decorators/Callers.antt =====
-- The queue of a handler while several callers of TaskHandler.delay are at work at once: each counts the
-- waiting tasks in Task.create, and inserts its own by task.save in a later step.
use flagsmith_common.Base.{
  ℕ, ◌+◌, ◌≤◌, ◌<◌, ◌≡◌, ◌↔◌, inl, inr, String, Option, some, List, [], ◌∷◌, ◌++◌, arith, length,
  filter, Option-cases, ap,
}
use flagsmith_common.Base.Table.{Table, insert}
use flagsmith_common.TaskProcessor.Json.{Json, value_or}
use flagsmith_common.TaskProcessor.Exceptions.{ok, raise, task_queue_full_error}
use flagsmith_common.TaskProcessor.Models.{
  Task, Task_waiting, TaskPriority, TraceContext, create, is_queue_full,
}
use flagsmith_common.TaskProcessor.Database.{Database}
use flagsmith_common.TaskProcessor.Decorators.{save_new}

-- The number of tasks of a handler that wait to be completed.
abbrev pub waiting : String → Table Task → ℕ
waiting task_identifier tasks = length (filter (Task_waiting task_identifier) tasks)

waiting-insert :
    (task_identifier : String) (k : ℕ) (task : Task) (tasks : Table Task)
    → waiting task_identifier (insert k task tasks) ≤ waiting task_identifier tasks + 1
unfolding insert filter
waiting-insert task_identifier k task [] = ground arith
waiting-insert task_identifier k task ((j, t) ∷ tasks) =
    ground (arith, waiting-insert task_identifier k task tasks)

-- `pending` are the tasks of the callers that have counted and not saved yet.
pub record Callers : Type 0 where
  pub database : Database
  pub pending : List Task

module _ (json : Json) (task_identifier : String) (size callers : ℕ) where
  pub data Step (σ : Callers) : Callers → Type 0 where
    -- Task.create finds room in the queue, in one of the callers
    count :
        (scheduled_for : ℕ) (priority : TaskPriority) (args kwargs : json.Value)
        (timeout : Option ℕ) (carrier : Option TraceContext) {task : Task}
        → create json task_identifier scheduled_for priority
            (some size)
            args
            kwargs
            timeout
            carrier
            σ.database.tasks
          ≡ ok task
        → length σ.pending < callers
        → Step σ (record σ { pending = task ∷ σ.pending })
    -- task.save()
    save :
        (now : ℕ) (before : List Task) (task : Task) (after : List Task)
        → σ.pending ≡ before ++ task ∷ after
        → Step σ
            (record σ { database = save_new json now task σ.database; pending = before ++ after })
    -- workers, the clean-up and other handlers, which add no waiting task of this one
    other :
        (database : Database)
        → waiting task_identifier database.tasks ≤ waiting task_identifier σ.database.tasks
        → Step σ (record σ { database = database })

  pub data Reach (σ : Callers) : Callers → Type 0 where
    start : Reach σ σ
    step : {τ υ : Callers} → Reach σ τ → Step τ υ → Reach σ υ

  -- `create` finds the queue full exactly if more than `size` tasks wait.
  create-full :
      (scheduled_for : ℕ) (priority : TaskPriority) (args kwargs : json.Value) (timeout : Option ℕ)
      (carrier : Option TraceContext) (tasks : Table Task)
      → 0 < size
      → (create json task_identifier scheduled_for priority
            (some size)
            args
            kwargs
            timeout
            carrier
            tasks
          ≡ raise (task_queue_full_error task_identifier size))
        ↔ (size < waiting task_identifier tasks)
  unfolding create is_queue_full
  create-full scheduled_for priority args kwargs timeout carrier tasks positive =
      elim (Option-cases (json.dumps (value_or json args json.empty_tuple))) [
        | inl a ↦ ground (arith, a)
        | inr (_, a) ↦ elim (Option-cases (json.dumps (value_or json kwargs json.empty_dict))) [
          | inl b ↦ ground (arith, a, b)
          | inr (_, b) ↦ ground (arith, a, b)
        ]
      ]

  -- `create` only succeeds while no more than `size` tasks wait.
  create-room :
      (scheduled_for : ℕ) (priority : TaskPriority) (args kwargs : json.Value) (timeout : Option ℕ)
      (carrier : Option TraceContext) (tasks : Table Task) (task : Task)
      → 0 < size
      → create json task_identifier scheduled_for priority
          (some size)
          args
          kwargs
          timeout
          carrier
          tasks
        ≡ ok task
      → waiting task_identifier tasks ≤ size
  unfolding create is_queue_full
  create-room scheduled_for priority args kwargs timeout carrier tasks task positive e =
      ground arith

  -- What holds between two steps.
  abbrev IsBounded : Callers → Type 0
  IsBounded σ =
      (waiting task_identifier σ.database.tasks + length σ.pending ≤ size + callers)
      × (length σ.pending ≤ callers)

  length-insertion :
      (before after : List Task) (task : Task)
      → length (before ++ task ∷ after) ≡ length (before ++ after) + 1
  length-insertion [] after task = omega arith
  length-insertion (t ∷ before) after task = omega (arith, length-insertion before after task)

  Step-IsBounded : (σ τ : Callers) → 0 < size → Step σ τ → IsBounded σ → IsBounded τ
  Step-IsBounded σ τ positive
        (count scheduled_for priority args kwargs timeout carrier {task} made few) h =
      let room =
        create-room scheduled_for priority args kwargs timeout carrier σ.database.tasks task
          positive made in
      (omega (arith, room, few), omega (arith, few))
  Step-IsBounded σ τ positive (save now before task after e) h =
      let stored = record task { base = record task.base { created_at = now } } in
      let more = waiting-insert task_identifier σ.database.next_id stored σ.database.tasks in
      let one = ap length e in
      let two = length-insertion before after task in
      (omega (arith, more, one, two, h.0), omega (arith, one, two, h.1))
  Step-IsBounded σ τ positive (other database fewer) h = (omega (arith, fewer, h.0), h.1)

  Reach-IsBounded : (σ τ : Callers) → 0 < size → Reach σ τ → IsBounded σ → IsBounded τ
  Reach-IsBounded σ τ positive start h = h
  Reach-IsBounded σ τ positive (step {τ = υ} r s) h =
      Step-IsBounded υ τ positive s (Reach-IsBounded σ υ positive r h)

  -- A handler with a queue size above 0 and with no more than so many callers between their counts and their
  -- insertions at any time: from a queue that is not longer than its size, after any steps of the
  -- callers and others, in any order, no more tasks wait than the size and one for each caller, and a
  -- caller is refused exactly while more tasks wait than the size. With one caller at a time, these
  -- are the size and one.
  pub callers_bound :
      (σ τ : Callers)
      → 0 < size
      → σ.pending ≡ []
      → waiting task_identifier σ.database.tasks ≤ size
      → Reach σ τ
      → (waiting task_identifier τ.database.tasks ≤ size + callers)
        × ((scheduled_for : ℕ) (priority : TaskPriority) (args kwargs : json.Value)
              (timeout : Option ℕ) (carrier : Option TraceContext)
            → (create json task_identifier scheduled_for priority
                  (some size)
                  args
                  kwargs
                  timeout
                  carrier
                  τ.database.tasks
                ≡ raise (task_queue_full_error task_identifier size))
              ↔ (size < waiting task_identifier τ.database.tasks))
  callers_bound σ τ positive none_pending short r =
      let none_yet : length σ.pending ≡ 0 = ap length none_pending in
      let bounded =
        Reach-IsBounded σ τ positive r (omega (arith, none_yet, short), omega (arith, none_yet)) in
      (
        omega (arith, bounded.0),
        λ scheduled_for priority args kwargs timeout carrier.
            create-full scheduled_for priority args kwargs timeout carrier τ.database.tasks
              positive,
      )
