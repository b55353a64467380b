-- ===== src/LintTests/Names.antt =====
-- The names of tests that pass the check FT003.
use Prim.Native.Char.{Char, code}
use text.Mathlib.TextEquality.{Char-path}
use flagsmith_common.Base.{
  ℕ, ◌≡◌, refl, sym, ap, ◌∙◌, ◌⊎◌, inl, inr, Bool, true, false, ◌&&◌, String, Option, List, [], ◌∷◌,
  arith, All, All-In, In, length, Bool-cases, ◌==◌, ==_iff,
}
use flagsmith_common.Base.Text.{
  concat, starts_with, contains, behind, glue, split_dunder, join_dunder,
}
use flagsmith_common.LintTests.{
  Node, function_def, class_def, import, import_from, statement, Decorator, has_fixture_decorator,
}
use flagsmith_common.LintTests.Checks.{num_parts, check_ft003}

split_dunder-cons :
    (s : String) → (part : String) × (parts : List String) × (split_dunder s ≡ part ∷ parts)
unfolding split_dunder
split_dunder-cons String.[] = ("", [], refl)
split_dunder-cons (String.◌∷◌ c String.[]) = (String.◌∷◌ c "", [], refl)
split_dunder-cons (String.◌∷◌ c (String.◌∷◌ d s)) =
    elim (Bool-cases (code c == b'_' && code d == b'_')) [
      | inl e ↦ ("", split_dunder s, rw e refl)
      | inr e ↦
          let (part, parts, next) = split_dunder-cons (String.◌∷◌ d s) in
          (String.◌∷◌ c part, parts, rw (e, next) refl)
    ]

join_dunder-glue :
    (c : Char) (parts : List String) → join_dunder (glue c parts) ≡ String.◌∷◌ c (join_dunder parts)
unfolding join_dunder concat
join_dunder-glue c [] = refl
join_dunder-glue c (part ∷ []) = refl
join_dunder-glue c (part ∷ next ∷ parts) = refl

join_dunder-gap :
    (s : String) → join_dunder ("" ∷ split_dunder s) ≡ concat "__" (join_dunder (split_dunder s))
unfolding join_dunder concat
join_dunder-gap s = let (part, parts, e) = split_dunder-cons s in rw e refl

is_underscore : (c : Char) → code c ≡ b'_' → c ≡ "_"
is_underscore c e = Char-path c "_" e

-- Splitting at "__" loses nothing.
join_dunder-split_dunder : (s : String) → join_dunder (split_dunder s) ≡ s
unfolding split_dunder join_dunder concat
join_dunder-split_dunder String.[] = refl
join_dunder-split_dunder (String.◌∷◌ c String.[]) = refl
join_dunder-split_dunder (String.◌∷◌ c (String.◌∷◌ d s)) =
    elim (Bool-cases (code c == b'_' && code d == b'_')) [
      | inl e ↦
          let (ec, ed) = both (code c == b'_') (code d == b'_') e in
          rw
            (
              e,
              join_dunder-gap s,
              join_dunder-split_dunder s,
              is_underscore c ((==_iff (code c) b'_').0 ec),
              is_underscore d ((==_iff (code d) b'_').0 ed),
            )
            refl
      | inr e ↦ rw e (
          join_dunder-glue c (split_dunder (String.◌∷◌ d s))
          ∙ ap (λ t. String.◌∷◌ c t) (join_dunder-split_dunder (String.◌∷◌ d s)))
    ]
  where
    both : (a b : Bool) → (a && b) ≡ true → (a ≡ true) × (b ≡ true)
    both a b h = ground arith

-- The first part is empty, or it begins as the text does.
split_dunder-first :
    (d : Char) (s : String)
    → (part : String) × (parts : List String) × (split_dunder (String.◌∷◌ d s) ≡ part ∷ parts)
      × ((part ≡ "") ⊎ ((rest : String) × (part ≡ String.◌∷◌ d rest)))
unfolding split_dunder
split_dunder-first d String.[] = (String.◌∷◌ d "", [], refl, inr ("", refl))
split_dunder-first d (String.◌∷◌ e s) = elim (Bool-cases (code d == b'_' && code e == b'_')) [
  | inl both ↦ ("", split_dunder s, rw both refl, inl refl)
  | inr other ↦
      let (part, parts, next) = split_dunder-cons (String.◌∷◌ e s) in
      (String.◌∷◌ d part, parts, rw (other, next) refl, inr (part, refl))
]

-- There is no separator in a part.
abbrev IsUndivided : String → Type 0
IsUndivided part = contains "__" part ≡ false

IsUndivided-cons :
    (c d : Char) (part : String)
    → (code c == b'_' && code d == b'_') ≡ false
    → (part ≡ "") ⊎ ((rest : String) × (part ≡ String.◌∷◌ d rest))
    → IsUndivided part
    → IsUndivided (String.◌∷◌ c part)
unfolding contains starts_with
IsUndivided-cons c d part apart (inl e) h = rw e (ground arith)
IsUndivided-cons c d part apart (inr (rest, e)) h =
    let h' = rw e at h in rw e (ground (arith, apart, h'))

split_dunder-IsUndivided : (s : String) → All IsUndivided (split_dunder s)
unfolding split_dunder contains starts_with
split_dunder-IsUndivided String.[] = (refl, tt)
split_dunder-IsUndivided (String.◌∷◌ c String.[]) = (ground arith, tt)
split_dunder-IsUndivided (String.◌∷◌ c (String.◌∷◌ d s)) =
    elim (Bool-cases (code c == b'_' && code d == b'_')) [
      | inl e ↦ rw e (refl, split_dunder-IsUndivided s)
      | inr e ↦
          let (part, parts, first, begins) = split_dunder-first d s in
          let h = rw first at (split_dunder-IsUndivided (String.◌∷◌ d s)) in
          rw (e, first) (IsUndivided-cons c d part e begins h.0, h.1)
    ]

starts_with-concat :
    (prefix s : String) → starts_with prefix s ≡ true → (rest : String) × (s ≡ concat prefix rest)
unfolding starts_with concat
starts_with-concat String.[] s h = (s, refl)
starts_with-concat (String.◌∷◌ p prefix) String.[] h = cc
starts_with-concat (String.◌∷◌ p prefix) (String.◌∷◌ c s) h = elim (Bool-cases (code p == code c)) [
  | inl e ↦
      let (rest, same) = starts_with-concat prefix s (rw e at h) in
      (rest, rw (Char-path p c ((==_iff (code p) (code c)).0 e)) (ap (λ t. String.◌∷◌ c t) same))
  | inr e ↦ absurd (let h' = rw e at h in cc)
]

starts_with-behind :
    (name : String) → starts_with "test_" name ≡ true → name ≡ concat "test_" (behind 5 name)
unfolding behind concat
starts_with-behind name h = let (rest, e) = starts_with-concat "test_" name h in rw e refl

three_parts :
    (parts : List String)
    → length parts ≡ 3
    → (a : String) × (b : String) × (c : String) × (parts ≡ a ∷ b ∷ c ∷ [])
three_parts [] h = absurd (omega arith)
three_parts (a ∷ []) h = absurd (omega arith)
three_parts (a ∷ b ∷ []) h = absurd (omega arith)
three_parts (a ∷ b ∷ c ∷ []) h = (a, b, c, refl)
three_parts (a ∷ b ∷ c ∷ d ∷ parts) h = absurd (omega arith)

-- test_{subject}__{condition}__{expected}, where no part has a separator in itself.
abbrev pub HasThreeParts : String → Type 0
HasThreeParts name =
    (subject : String) × (condition : String) × (expected : String) × (name
      ≡ concat "test_" (concat subject (concat "__" (concat condition (concat "__" expected)))))
    × (contains "__" subject ≡ false)
    × (contains "__" condition ≡ false)
    × (contains "__" expected ≡ false)

num_parts-HasThreeParts :
    (name : String) → starts_with "test_" name ≡ true → num_parts name ≡ 3 → HasThreeParts name
unfolding num_parts join_dunder
num_parts-HasThreeParts name h three =
    let (a, b, c, e) = three_parts (split_dunder (behind 5 name)) three in
    let joined = join_dunder-split_dunder (behind 5 name) in
    let (p, (q, (s, none))) = rw e at (split_dunder-IsUndivided (behind 5 name)) in
    (a, b, c, starts_with-behind name h ∙ ap (concat "test_") (sym (rw e at joined)), p, q, s)

abbrev IsNamed : Node → Type 0
IsNamed (function_def name decorators lineno col_offset end_lineno) =
    starts_with "test_" name ≡ true → has_fixture_decorator decorators ≡ false → HasThreeParts name
IsNamed _ = Unit

check_ft003-IsNamed :
    (filepath : String) (nodes : List Node) → check_ft003 filepath nodes ≡ [] → All IsNamed nodes
unfolding check_ft003
check_ft003-IsNamed filepath [] h = tt
check_ft003-IsNamed filepath (class_def name lineno col_offset ∷ nodes) h =
    (tt, check_ft003-IsNamed filepath nodes h)
check_ft003-IsNamed filepath (import names lineno col_offset ∷ nodes) h =
    (tt, check_ft003-IsNamed filepath nodes h)
check_ft003-IsNamed filepath (import_from module_name names lineno col_offset ∷ nodes) h =
    (tt, check_ft003-IsNamed filepath nodes h)
check_ft003-IsNamed filepath (statement ∷ nodes) h = (tt, check_ft003-IsNamed filepath nodes h)
check_ft003-IsNamed filepath (function_def name decorators lineno col_offset end_lineno ∷ nodes) h =
    elim (Bool-cases (num_parts name == 3)) [
      | inl three ↦ (
        λ t f. num_parts-HasThreeParts name t ((==_iff (num_parts name) 3).0 three),
        check_ft003-IsNamed filepath nodes (ground (arith, three, h)),
      )
      | inr other ↦ (
        λ t f. absurd (ground (arith, other, t, f, h)),
        check_ft003-IsNamed filepath nodes (ground (arith, other, h)),
      )
    ]

-- If FT003 reports nothing, each function at the top of the module that is defined by def (not by
-- async def), whose name begins with test_ and which is no fixture, has a name of the form
-- test_{subject}__{condition}__{expected}, where none of the three parts contains "__".
pub check_ft003-HasThreeParts :
    (filepath : String) (nodes : List Node) (name : String) (decorators : List Decorator)
    (lineno col_offset : ℕ) (end_lineno : Option ℕ)
    → check_ft003 filepath nodes ≡ []
    → In (function_def name decorators lineno col_offset end_lineno) nodes
    → starts_with "test_" name ≡ true
    → has_fixture_decorator decorators ≡ false
    → HasThreeParts name
check_ft003-HasThreeParts filepath nodes name decorators lineno col_offset end_lineno silent i t f =
    All-In IsNamed (function_def name decorators lineno col_offset end_lineno) nodes
      (check_ft003-IsNamed filepath nodes silent) i t f
