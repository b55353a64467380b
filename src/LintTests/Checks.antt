-- ===== src/LintTests/Checks.antt =====
-- The four checks and what runs them.
use flagsmith_common.Base.{
  ℕ, ◌+◌, Bool, true, false, not, ◌&&◌, ◌||◌, String, Option, none, some, List, [], ◌∷◌, ◌++◌, map,
  any, filter, length, str_eq, ◌==◌, leb, if◌then◌else◌,
}
use flagsmith_common.Base.Text.{starts_with, contains, behind, lstrip, strip, lower, split_dunder}
use Prim.Native.Char.{code}
use flagsmith_common.LintTests.{
  Node, function_def, class_def, import, import_from, Tree, Violation, Message, could_not_parse,
  test_class, import_unittest, from_unittest, test_name, missing_comments, has_fixture_decorator,
}
use flagsmith_common.LintTests.Comments.{Comments, extract_comments, comment_at, is_noqa_suppressed}

abbrev pub unittest_banned_imports : List String
unittest_banned_imports = "TestCase" ∷ "TestSuite" ∷ "TestLoader" ∷ "TextTestRunner" ∷ []

abbrev pub violation : String → ℕ → ℕ → String → Message → Violation
violation file lineno col_offset code message = record {
  file = file;
  line = lineno;
  col = col_offset + 1;
  code = code;
  message = message;
}

unfoldable pub check_ft001 : String → List Node → List Violation
unfolding starts_with
check_ft001 filepath [] = []
check_ft001 filepath (class_def name lineno col_offset ∷ nodes) =
    let rest = check_ft001 filepath nodes in
    if starts_with "Test" name
    then violation filepath lineno col_offset "FT001" (test_class name) ∷ rest
    else rest
check_ft001 filepath (_ ∷ nodes) = check_ft001 filepath nodes

-- The loops over the names of one import.
unfoldable pub import_violations : String → ℕ → ℕ → List String → List Violation
import_violations filepath lineno col_offset [] = []
import_violations filepath lineno col_offset (alias ∷ names) =
    let rest = import_violations filepath lineno col_offset names in
    if str_eq alias "unittest"
    then violation filepath lineno col_offset "FT002" import_unittest ∷ rest
    else rest

unfoldable pub import_from_violations : String → ℕ → ℕ → List String → List Violation
import_from_violations filepath lineno col_offset [] = []
import_from_violations filepath lineno col_offset (alias ∷ names) =
    let rest = import_from_violations filepath lineno col_offset names in
    if any (λ banned. str_eq banned alias) unittest_banned_imports
    then violation filepath lineno col_offset "FT002" (from_unittest alias) ∷ rest
    else rest

abbrev is_unittest : Option String → Bool
is_unittest none = false
is_unittest (some module_name) = str_eq module_name "unittest"

-- Over ast.walk(tree).
unfoldable pub check_ft002 : String → List Node → List Violation
unfolding import_violations import_from_violations
check_ft002 filepath [] = []
check_ft002 filepath (import names lineno col_offset ∷ nodes) =
    import_violations filepath lineno col_offset names ++ check_ft002 filepath nodes
check_ft002 filepath (import_from module_name names lineno col_offset ∷ nodes) =
    let found =
      if is_unittest module_name
      then import_from_violations filepath lineno col_offset names
      else [] in
    found ++ check_ft002 filepath nodes
check_ft002 filepath (_ ∷ nodes) = check_ft002 filepath nodes

-- len(node.name[5:].split("__"))
unfoldable pub num_parts : String → ℕ
unfolding behind split_dunder
num_parts name = length (split_dunder (behind 5 name))

unfoldable pub check_ft003 : String → List Node → List Violation
unfolding starts_with num_parts
check_ft003 filepath [] = []
check_ft003 filepath (function_def name decorators lineno col_offset end_lineno ∷ nodes) =
    let rest = check_ft003 filepath nodes in
    if starts_with "test_" name
      && not (has_fixture_decorator decorators)
      && not (num_parts name == 3)
    then violation filepath lineno col_offset "FT003" (test_name name (num_parts name)) ∷ rest
    else rest
check_ft003 filepath (_ ∷ nodes) = check_ft003 filepath nodes

-- text.lstrip("#").strip().lower()
unfoldable pub normalize : String → String
unfolding lstrip lower
normalize text = lower (strip (lstrip (λ c. code c == b'#') text))

-- has_given, has_when and has_then
pub record Seen : Type 0 where
  pub has_given : Bool
  pub has_when : Bool
  pub has_then : Bool

-- One round of the loop of _find_missing_gwt.
unfoldable pub see : String → Seen → Seen
unfolding starts_with contains
see normalized seen =
    let given = starts_with "given" normalized in
    let when = starts_with "when" normalized in
    record {
      has_given = seen.has_given || given;
      has_when = seen.has_when || (given && contains "when" normalized) || when;
      has_then =
          seen.has_then || (when && contains "then" normalized) || starts_with "then" normalized;
    }

unfoldable pub see_all : List String → Seen → Seen
unfolding normalize see
see_all [] seen = seen
see_all (text ∷ texts) seen = see_all texts (see (normalize text) seen)

abbrev unless : Bool → String → List String → List String
unless has keyword missing = if has then missing else keyword ∷ missing

-- _find_missing_gwt
unfoldable pub find_missing_gwt : List String → List String
unfolding see_all
find_missing_gwt func_comments =
    let seen =
      see_all func_comments (record { has_given = false; has_when = false; has_then = false }) in
    unless seen.has_given "Given" (unless seen.has_when "When" (unless seen.has_then "Then" []))

-- The comments on the lines of a function. An end of 0 is no end.
abbrev last_line : ℕ → Option ℕ → ℕ
last_line lineno none = lineno
last_line lineno (some end_lineno) = if end_lineno == 0 then lineno else end_lineno

abbrev func_comments : ℕ → Option ℕ → Comments → List String
func_comments lineno end_lineno comments =
    map (λ (line_no, text). text)
      (filter (λ (line_no, text). leb lineno line_no && leb line_no (last_line lineno end_lineno))
        comments)

unfoldable pub check_ft004 : String → Comments → List Node → List Violation
unfolding starts_with find_missing_gwt filter
check_ft004 filepath comments [] = []
check_ft004 filepath comments (function_def name decorators lineno col_offset end_lineno ∷ nodes) =
    let rest = check_ft004 filepath comments nodes in
    let missing = find_missing_gwt (func_comments lineno end_lineno comments) in
    if starts_with "test_" name
      && not (has_fixture_decorator decorators)
      && not (length missing == 0)
    then violation filepath lineno col_offset "FT004" (missing_comments name missing) ∷ rest
    else rest
check_ft004 filepath comments (_ ∷ nodes) = check_ft004 filepath comments nodes

-- A file: path.name, path.suffix, source.splitlines(), and what ast.parse makes of it, none for a
-- SyntaxError.
pub record SourceFile : Type 0 where
  pub filepath : String
  pub name : String
  pub suffix : String
  pub lines : List String
  pub tree : Option Tree

unfoldable pub is_reported : Comments → Violation → Bool
unfolding comment_at is_noqa_suppressed
is_reported comments v = elim (comment_at v.line comments) [
  | none ↦ true
  | some comment ↦ not (is_noqa_suppressed comment v.code)
]

unfoldable pub check_tree : String → Comments → Tree → List Violation
unfolding check_ft001 check_ft002 check_ft003 check_ft004
check_tree filepath comments tree =
    check_ft001 filepath tree.children
    ++ check_ft002 filepath tree.walk
    ++ check_ft003 filepath tree.children
    ++ check_ft004 filepath comments tree.children

unfoldable pub lint_file : SourceFile → List Violation
unfolding starts_with extract_comments check_tree is_reported filter
lint_file file =
    let comments = extract_comments 1 file.lines in
    let checked : List Violation = elim file.tree [
      | none ↦ violation file.filepath 1 0 "FT000" could_not_parse ∷ []
      | some tree ↦ filter (is_reported comments) (check_tree file.filepath comments tree)
    ] in
    if starts_with "test_" file.name && str_eq file.suffix ".py" then checked else []

-- The loop of `main`: what is printed, and has_errors.
unfoldable pub lint_files : List SourceFile → List Violation × Bool
unfolding lint_file
lint_files [] = ([], false)
lint_files (file ∷ files) =
    let violations = lint_file file in
    let (printed, has_errors) = lint_files files in
    (violations ++ printed, not (length violations == 0) || has_errors)

-- main: the exit code.
unfoldable pub main : List SourceFile → ℕ
unfolding lint_files
main files = let (printed, has_errors) = lint_files files in if has_errors then 1 else 0
