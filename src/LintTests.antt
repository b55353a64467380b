-- ===== src/LintTests.antt =====
-- common/lint_tests.py: the linter of test conventions. The syntax tree comes from the library `ast`:
-- a module is known by its children and by what ast.walk yields, a node by the attributes that the
-- checks read. Texts are ASCII.
pub mod Comments
pub mod Checks
pub mod Verdicts
pub mod Names
pub mod Examples
use flagsmith_common.Base.{
  ℕ, ◌+◌, Bool, true, false, String, Option, none, some, List, [], ◌∷◌, str_eq, any,
}

-- A decorator: an attribute, a name, a call of one, or another expression.
pub data Decorator : Type 0 where
  attribute : (attr : String) → Decorator
  name : (id : String) → Decorator
  call : (func : Decorator) → Decorator
  expression : Decorator

pub data Node : Type 0 where
  function_def :
      (name : String) (decorator_list : List Decorator) (lineno col_offset : ℕ)
      (end_lineno : Option ℕ)
      → Node
  class_def : (name : String) (lineno col_offset : ℕ) → Node
  import : (names : List String) (lineno col_offset : ℕ) → Node
  import_from : (module_name : Option String) (names : List String) (lineno col_offset : ℕ) → Node
  statement : Node

pub record Tree : Type 0 where
  pub children : List Node
  pub walk : List Node

-- The message of a violation, with the values that are formatted into it.
pub data Message : Type 0 where
  could_not_parse : Message
  test_class : (name : String) → Message
  import_unittest : Message
  from_unittest : (name : String) → Message
  test_name : (name : String) (parts : ℕ) → Message
  missing_comments : (name : String) (missing : List String) → Message

pub record Violation : Type 0 where
  pub file : String
  pub line : ℕ
  pub col : ℕ
  pub code : String
  pub message : Message

abbrev is_fixture_name : Decorator → Bool
is_fixture_name (attribute attr) = str_eq attr "fixture"
is_fixture_name (name id) = str_eq id "fixture"
is_fixture_name _ = false

abbrev is_fixture : Decorator → Bool
is_fixture (call func) = is_fixture_name func
is_fixture decorator = is_fixture_name decorator

-- _has_fixture_decorator
abbrev pub has_fixture_decorator : List Decorator → Bool
has_fixture_decorator decorator_list = any is_fixture decorator_list
