-- ===== src/LintTests/Comments.antt =====
-- Comments by line, and the noqa directives in them.
use Prim.Native.Char.{Char, code}
use flagsmith_common.Base.{
  ℕ, ◌+◌, Bool, true, false, not, ◌&&◌, ◌||◌, String, Option, none, some, List, [], ◌∷◌, any,
  str_eq, ◌==◌, if◌then◌else◌,
}
use flagsmith_common.Base.Text.{
  starts_with, behind, is_space, is_word, in_range, lstrip, strip, split_comma,
}

-- re.search(r"#(.*)$", line): from the first "#" on, which stands in front of the group again.
unfoldable pub find_comment : String → Option String
find_comment String.[] = none
find_comment (String.◌∷◌ c s) =
    let later = find_comment s in if code c == b'#' then some (String.◌∷◌ c s) else later

-- The dict from line numbers to comments, in the order of the lines.
abbrev pub Comments : Type 0
Comments = List (ℕ × String)

-- _extract_comments, of source.splitlines() from a line number on.
unfoldable pub extract_comments : ℕ → List String → Comments
unfolding find_comment
extract_comments lineno [] = []
extract_comments lineno (line ∷ lines) =
    let rest = extract_comments (lineno + 1) lines in
    elim (find_comment line) [ none ↦ rest | some comment ↦ (lineno, comment) ∷ rest ]

unfoldable pub comment_at : ℕ → Comments → Option String
comment_at line [] = none
comment_at line ((lineno, comment) ∷ comments) =
    if lineno == line then some comment else comment_at line comments

-- \b behind a word character
abbrev at_boundary : String → Bool
at_boundary String.[] = true
at_boundary (String.◌∷◌ c s) = not (is_word c)

abbrev is_code_char : Char → Bool
is_code_char c = in_range b'A' b'Z' c || in_range b'0' b'9' c || code c == b',' || is_space c

unfoldable pub take_codes : String → String
take_codes String.[] = ""
take_codes (String.◌∷◌ c s) =
    let rest = take_codes s in if is_code_char c then String.◌∷◌ c rest else ""

-- (?::\s*(?P<codes>[A-Z0-9,\s]+))? The spaces in front may go to the group or not, which makes no
-- difference to the codes: they are stripped.
abbrev codes_group : String → Option String
codes_group String.[] = none
codes_group (String.◌∷◌ c s) =
    let codes = take_codes s in if code c == b':' && not (str_eq codes "") then some codes else none

-- The pattern, matched at a place: none if it does not match there.
unfoldable pub match_noqa : String → Option (Option String)
unfolding starts_with lstrip behind take_codes
match_noqa String.[] = none
match_noqa (String.◌∷◌ c s) =
    let word = lstrip is_space s in
    let rest = behind 4 word in
    if code c == b'#' && starts_with "noqa" word && at_boundary rest
    then some (codes_group rest)
    else none

-- _NOQA_RE.search: the first place that matches.
unfoldable pub search_noqa : String → Option (Option String)
unfolding match_noqa
search_noqa String.[] = none
search_noqa (String.◌∷◌ c s) =
    let later = search_noqa s in
    elim (match_noqa (String.◌∷◌ c s)) [ none ↦ later | some found ↦ some found ]

-- _is_noqa_suppressed
unfoldable pub is_noqa_suppressed : String → String → Bool
unfolding search_noqa split_comma
is_noqa_suppressed comment code = elim (search_noqa comment) [
  | none ↦ false
  | some none ↦ true
  | some (some codes) ↦ any (λ c. str_eq (strip c) code) (split_comma codes)
]
