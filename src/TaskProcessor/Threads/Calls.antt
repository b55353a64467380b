-- ===== src/TaskProcessor/Threads/Calls.antt =====
-- The proofs on one execution that comes back.
use flagsmith_common.Base.{
  ℕ, ◌≡◌, refl, inl, inr, Bool, true, false, Bool-cases, Option, none, some, leb, String, str_eq,
}
use flagsmith_common.TaskProcessor.Exceptions.{
  Exception, is_caught, timeout_error, task_backoff_error, assertion_error, attribute_error,
  json_decode_error, Result, ok, raise, hang, ◌>>=◌, check, from_option,
}
use flagsmith_common.TaskProcessor.Json.{Json}
use flagsmith_common.TaskProcessor.Settings.{Settings}
use flagsmith_common.TaskProcessor.Models.{AbstractBaseTask, AbstractTaskRun, args, kwargs}
use flagsmith_common.TaskProcessor.Registry.{TaskFunction, RegisteredTask, Registry, get_task}
use flagsmith_common.TaskProcessor.Processor.{
  TaskModel, is_standard, run_or_new, Ending, returned, raised, Call, Execution, future_result,
  wait_limit, back_off, settle, prepare, run_task,
}
use flagsmith_common.TaskProcessor.Returns.{IsOrderly}

-- The call comes back, and lets no exception through that `except Exception` does not catch.
abbrev pub IsSafe : {A : Type 0} → Result A → Type 0
IsSafe (ok a) = Unit
IsSafe (raise e) = is_caught e ≡ true
IsSafe hang = ⊥

pub IsSafe->>= :
    {A B : Type 0} (m : Result A) (f : A → Result B)
    → IsSafe m
    → ((a : A) → IsSafe (f a))
    → IsSafe (m >>= f)
IsSafe->>= (ok a) f h k = k a
IsSafe->>= (raise e) f h k = h
IsSafe->>= hang f h k = h

IsSafe-check : (b : Bool) (e : Exception) → is_caught e ≡ true → IsSafe (check b e)
IsSafe-check true e h = tt
IsSafe-check false e h = h

IsSafe-from_option :
    {A : Type 0} (x : Option A) (e : Exception) → is_caught e ≡ true → IsSafe (from_option x e)
IsSafe-from_option none e h = h
IsSafe-from_option (some a) e h = tt

-- A call that comes back, by an ordinary exception at most.
abbrev pub ComesBack : Call → Type 0
ComesBack call = IsOrderly call.ends × (duration : ℕ) × (call.takes ≡ some duration)

abbrev pub AllComeBack : {json : Json} → Execution json → Type 0
AllComeBack {json = json} x =
    (function : TaskFunction) (task_args task_kwargs : json.Value)
    → ComesBack (x.call function task_args task_kwargs)

future_result-ComesBack :
    (limit : Option ℕ) (call : Call)
    → ComesBack call
    → (ending : Ending) × (future_result limit call ≡ some ending) × IsOrderly ending
unfolding future_result
future_result-ComesBack none call (o, d, e) = (call.ends, rw (future_result, e) refl, o)
future_result-ComesBack (some limit) call (o, d, e) = elim (Bool-cases (leb d limit)) [
  | inl f ↦ (call.ends, rw (future_result, e, f) refl, o)
  | inr f ↦ (raised timeout_error, rw (future_result, e, f) refl, refl)
]

get_task-IsSafe :
    (registered_tasks : Registry) (name : String) → IsSafe (get_task registered_tasks name)
unfolding get_task
get_task-IsSafe registered_tasks name = IsSafe-from_option _ _ refl

module _ (json : Json) where
  args-IsSafe : (t : AbstractBaseTask) → IsSafe (args json t)
  unfolding args
  args-IsSafe t = go t.serialized_args refl
    where
      go : (x : Option String) → t.serialized_args ≡ x → IsSafe (args json t)
      go none e = rw (args, e) tt
      go (some text) e = elim (Bool-cases (str_eq text "")) [
        | inl f ↦ rw (args, e, f) tt
        | inr f ↦
            rw (args, e, f)
              (IsSafe->>= _ _ (IsSafe-from_option (json.loads text) json_decode_error refl)
                (λ a. tt))
      ]

  kwargs-IsSafe : (t : AbstractBaseTask) → IsSafe (kwargs json t)
  unfolding kwargs
  kwargs-IsSafe t = go t.serialized_kwargs refl
    where
      go : (x : Option String) → t.serialized_kwargs ≡ x → IsSafe (kwargs json t)
      go none e = rw (kwargs, e) tt
      go (some text) e = elim (Bool-cases (str_eq text "")) [
        | inl f ↦ rw (kwargs, e, f) tt
        | inr f ↦ rw (kwargs, e, f) (IsSafe-from_option (json.loads text) json_decode_error refl)
      ]

module _ {T : Type 0} ⦃m : TaskModel T⦄ (settings : Settings) where
  back_off-IsSafe :
      (registered : RegisteredTask) (e : Exception) (now : ℕ) (task : T)
      → IsSafe (back_off settings registered e now task)
  unfolding back_off
  back_off-IsSafe registered (task_backoff_error delay_until) now task =
      IsSafe->>= (check (is_standard registered.task_type) assertion_error) _
        (IsSafe-check (is_standard registered.task_type) assertion_error refl)
        (λ u.
          IsSafe->>= (from_option (m.num_failures task) attribute_error) _
            (IsSafe-from_option (m.num_failures task) attribute_error refl) (λ n. tt))
  back_off-IsSafe registered _ now task = tt

  settle-IsSafe :
      (registered : RegisteredTask) (ending : Ending) (now : ℕ) (traceback : String) (task : T)
      (run : AbstractTaskRun)
      → IsOrderly ending
      → IsSafe (settle settings registered ending now traceback task run)
  unfolding settle
  settle-IsSafe registered returned now traceback task run h = tt
  settle-IsSafe registered (raised e) now traceback task run h = rw h (
      IsSafe->>= (back_off settings registered e now (m.mark_failure task)) _
        (back_off-IsSafe registered e now (m.mark_failure task)) (λ a. tt))

  prepare-IsSafe :
      (json : Json) (registered_tasks : Registry) (task : T)
      → IsSafe (prepare settings json registered_tasks task)
  unfolding prepare
  prepare-IsSafe json registered_tasks task =
      IsSafe->>= (check settings.task_processor_mode assertion_error) _
        (IsSafe-check settings.task_processor_mode assertion_error refl)
        (λ u.
          IsSafe->>= (get_task registered_tasks (m.base task).task_identifier) _
            (get_task-IsSafe registered_tasks (m.base task).task_identifier)
            (λ registered.
              IsSafe->>= (args json (m.base task)) _ (args-IsSafe json (m.base task)) (λ task_args.
                IsSafe->>= (kwargs json (m.base task)) _ (kwargs-IsSafe json (m.base task))
                  (λ task_kwargs. tt))))

  pub run_task-IsSafe :
      (json : Json) (registered_tasks : Registry) (x : Execution json) (pk : ℕ) (task : T)
      (task_run : Option AbstractTaskRun)
      → AllComeBack x
      → IsSafe (run_task settings json registered_tasks x pk task task_run)
  unfolding run_task
  run_task-IsSafe json registered_tasks x pk task task_run h =
      IsSafe->>= (prepare settings json registered_tasks task) _
        (prepare-IsSafe json registered_tasks task)
        (λ (registered, task_args, task_kwargs).
          let (ending, e, o) =
            future_result-ComesBack (wait_limit (m.timeout task))
              (x.call registered.task_function task_args task_kwargs)
              (h registered.task_function task_args task_kwargs) in
          rw e (
            settle-IsSafe registered ending x.ended_at x.traceback task
              (run_or_new task_run x.started_at pk) o))
