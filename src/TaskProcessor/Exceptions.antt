-- ===== src/TaskProcessor/Exceptions.antt =====
-- task_processor/exceptions.py, with the built-in exceptions that the package meets.
use flagsmith_common.Base.{
  if◌then◌else◌, ℕ, ◌≡◌, refl, Bool, true, false, String, Option, none, some,
}

pub data Exception : Type 0 where
  -- task_processor/exceptions.py
  task_processing_error : (task_identifier : String) → Exception
  invalid_arguments_error : Exception
  task_backoff_error : (delay_until : Option ℕ) → Exception
  task_queue_full_error : (task_identifier : String) (queue_size : ℕ) → Exception
  -- Python, Django and the libraries
  value_error type_error assertion_error attribute_error json_decode_error timeout_error : Exception
  integrity_error database_error multiple_objects_returned operational_error improperly_configured :
      Exception
  other_error : (message : String) → Exception
  -- a BaseException that is no Exception, such as SystemExit
  system_exit : Exception

-- What `except Exception` catches.
abbrev pub is_caught : Exception → Bool
is_caught system_exit = false
is_caught _ = true

-- `hang`: the call never returns.
pub data Result (A : Type 0) : Type 0 where
  ok : A → Result A
  raise : Exception → Result A
  hang : Result A

infixl 5 ◌>>=◌ ◌>>◌
abbrev pub ◌>>=◌ : {A B : Type 0} → Result A → (A → Result B) → Result B
hang >>= next = hang
raise exception >>= next = raise exception
ok answer >>= next = next answer

-- assert test
abbrev pub check : Bool → Exception → Result (Unit {0})
check test exception = if test then ok tt else raise exception

abbrev pub ◌>>◌ : {B : Type 0} → Result (Unit {0}) → Result B → Result B
statement >> rest = statement >>= λ (_ : Unit {0}). rest

abbrev pub from_option : {A : Type 0} → Option A → Exception → Result A
from_option none e = raise e
from_option (some a) e = ok a

-- A bind that succeeds has a first part that succeeds.
pub >>=-eq-ok :
    {A B : Type 0} {result : B} (first : Result A) (next : A → Result B)
    → (first >>= next) ≡ ok result
    → (answer : A) × (first ≡ ok answer) × (next answer ≡ ok result)
>>=-eq-ok hang next succeeds = cc
>>=-eq-ok (raise exception) next succeeds = cc
>>=-eq-ok (ok answer) next succeeds = (answer, refl, succeeds)

-- To show something of a bind: show it of the rest after each success, and of each failure.
pub >>=-elim {ℓ} :
    {A B : Type 0} (P : Result B → Type ℓ) (m : Result A) (f : A → Result B)
    → ((a : A) → m ≡ ok a → P (f a))
    → ((e : Exception) → P (raise e))
    → P hang
    → P (m >>= f)
>>=-elim P (ok a) f s r h = s a refl
>>=-elim P (raise e) f s r h = r e
>>=-elim P hang f s r h = h
