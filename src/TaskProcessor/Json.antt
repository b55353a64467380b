-- ===== src/TaskProcessor/Json.antt =====
-- simplejson with Django's encoder, which the program calls: a parameter of what uses it.
use flagsmith_common.Base.{Bool, String, Option, if◌then◌else◌}

pub record Json : Type 1 where
  -- the values that a task is called with, and those that a document holds
  pub Value : Type 0
  -- none: TypeError, the value is not serializable
  pub dumps : Value → Option String
  -- none: JSONDecodeError
  pub loads : String → Option Value
  -- tuple(v)
  pub to_tuple : Value → Value
  -- () and {}
  pub empty_tuple : Value
  pub empty_dict : Value
  -- not v
  pub is_empty : Value → Bool

-- `v or default`
abbrev pub value_or : (json : Json) → json.Value → json.Value → json.Value
value_or json v default = if json.is_empty v then default else v
