-- ===== src/TaskProcessor/Decorators/Dispatch.antt =====
-- What TaskHandler.delay does to the database under each run method.
use flagsmith_common.Base.{
  ℕ, ◌≡◌, refl, ◌≢◌, ◌⊎◌, inl, inr, Option, none, some, [], ◌∷◌, arith, Option-cases,
}
use flagsmith_common.TaskProcessor.Json.{Json, value_or}
use flagsmith_common.TaskProcessor.Exceptions.{Result}
use flagsmith_common.TaskProcessor.Settings.{
  Settings, TaskRunMethod, synchronously, separate_thread, task_processor,
}
use flagsmith_common.TaskProcessor.Models.{Task, TraceContext, create}
use flagsmith_common.TaskProcessor.Registry.{TaskFunction}
use flagsmith_common.TaskProcessor.Database.{Database}
use flagsmith_common.TaskProcessor.Processor.{Ending}
use flagsmith_common.TaskProcessor.Decorators.{TaskHandler, count_enqueued, delay, saved}

TaskRunMethod-cases :
    (m : TaskRunMethod) → (m ≡ synchronously) ⊎ ((m ≡ separate_thread) ⊎ (m ≡ task_processor))
TaskRunMethod-cases synchronously = inl refl
TaskRunMethod-cases separate_thread = inr (inl refl)
TaskRunMethod-cases task_processor = inr (inr refl)

module _ (json : Json) where
  module _ (settings : Settings) (handler : TaskHandler)
      (ending : TaskFunction → json.Value → json.Value → Ending) (carrier : Option TraceContext)
      (now : ℕ) (delay_until : Option ℕ) (args : json.Value) (kwargs : Option json.Value)
      (meanwhile : Database → Database) (db : Database) where
    abbrev moment : ℕ
    moment = elim delay_until [ none ↦ now | some scheduled ↦ scheduled ]

    abbrev given_kwargs : json.Value
    given_kwargs = elim kwargs [ none ↦ json.empty_dict | some v ↦ value_or json v json.empty_dict ]

    abbrev created : Result Task
    created =
        create json handler.task_identifier moment handler.priority handler.queue_size args
          given_kwargs handler.timeout carrier db.tasks

    -- With the task processor, `create` counts the queue that `delay` finds, and the task is inserted into
    -- what the others have made of the database since.
    pub delay-saved :
        settings.task_run_method ≡ task_processor
        → (delay json settings handler ending carrier now delay_until args kwargs meanwhile
            db).database
          ≡ (saved json created now
              (count_enqueued handler.task_identifier ∷ [])
              (meanwhile db)).database
    unfolding delay
    delay-saved e = elim (Option-cases delay_until) [
      | inl d ↦ elim (Option-cases kwargs) [
        | inl v ↦ simp (e, d, v) refl
        | inr (_, v) ↦ simp (e, d, v) refl
      ]
      | inr (_, d) ↦ elim (Option-cases kwargs) [
        | inl v ↦ simp (e, d, v) refl
        | inr (_, v) ↦ simp (e, d, v) refl
      ]
    ]

    -- Unless tasks go to the task processor, `delay` does not touch the database.
    pub delay-elsewhere :
        settings.task_run_method ≢ task_processor
        → (delay json settings handler ending carrier now delay_until args kwargs meanwhile
            db).database
          ≡ db
    unfolding delay
    delay-elsewhere other = elim (TaskRunMethod-cases settings.task_run_method) [
      | inl e ↦ ground arith
      | inr (inl e) ↦ ground arith
      | inr (inr e) ↦ absurd (other e)
    ]
