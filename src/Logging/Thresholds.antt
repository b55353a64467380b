-- ===== src/Logging/Thresholds.antt =====
-- The proofs on the records that reach the console after setup_logging.
use Prim.Native.Nat.{max}
use flagsmith_common.Base.{
  ℕ, ◌≡◌, refl, ◌∙◌, inl, inr, Bool, true, false, ◌&&◌, Bool-cases, arith, String, Option, none,
  some, List, [], ◌∷◌, All, any, leb, ltb, ◌==◌, ==_iff, str_eq, if◌then◌else◌,
}
use flagsmith_common.Base.Text.{upper}
use flagsmith_common.Base.Sets.{member}
use flagsmith_common.Base.Dict.{Dict, find, put, find-put, find-All}
use flagsmith_common.Logging.Levels.{
  level_names_mapping, Levels, check_levels, dict_config, parents, effective_level, is_written,
}
use flagsmith_common.Logging.SetUp.{logger_levels, effective_root_level, set_up, setup_levels}

-- A name of a level is in capitals.
find-upper :
    (name : String) (number : ℕ)
    → find name level_names_mapping ≡ some number
    → find (upper name) level_names_mapping ≡ some number
unfolding find upper
find-upper name number e =
    find-All (λ entry. find (upper entry.0) level_names_mapping ≡ some entry.1) name number
      level_names_mapping (refl, (refl, (refl, (refl, (refl, (refl, (refl, (refl, tt)))))))) e

if-same : {A : Type 0} (b : Bool) (x : A) → (if b then x else x) ≡ x
if-same true x = refl
if-same false x = refl

if-if :
    {A : Type 0} (a b : Bool) (x y : A)
    → (if a then x else (if b then x else y)) ≡ (if (if b then true else a) then x else y)
if-if true true x y = refl
if-if true false x y = refl
if-if false b x y = elim (Bool-cases b) [ inl e ↦ rw e refl | inr e ↦ rw e refl ]

-- A logger has a level if it is one of the application's, and the one that is asked for.
find-logger_levels :
    (log_level key : String) (names : List String) (levels : Dict String)
    → find key (logger_levels log_level names levels)
      ≡ (if member str_eq key names then some log_level else find key levels)
unfolding logger_levels
find-logger_levels log_level key [] levels = refl
find-logger_levels log_level key (name ∷ names) levels =
    find-logger_levels log_level key names (put name log_level levels)
    ∙ rw (find-put key name log_level levels)
        (if-if (member str_eq key names) (str_eq name key) (some log_level) (find key levels))

-- Every entry has this level.
abbrev HasLevel : String → Dict String → Type 0
HasLevel log_level d = All (λ entry. entry.1 ≡ log_level) d

HasLevel-put :
    (log_level name : String) (d : Dict String)
    → HasLevel log_level d
    → HasLevel log_level (put name log_level d)
unfolding put
HasLevel-put log_level name [] h = (refl, tt)
HasLevel-put log_level name ((other, value) ∷ d) h = elim (Bool-cases (str_eq other name)) [
  | inl e ↦ rw e (refl, h.1)
  | inr e ↦ rw e (h.0, HasLevel-put log_level name d h.1)
]

HasLevel-logger_levels :
    (log_level : String) (names : List String) (d : Dict String)
    → HasLevel log_level d
    → HasLevel log_level (logger_levels log_level names d)
unfolding logger_levels
HasLevel-logger_levels log_level [] d h = h
HasLevel-logger_levels log_level (name ∷ names) d h =
    HasLevel-logger_levels log_level names (put name log_level d) (HasLevel-put log_level name d h)

abbrev number_of : ℕ → Option String → Option ℕ
number_of number none = none
number_of number (some _) = some number

number_of-if :
    (number : ℕ) (log_level : String) (b : Bool)
    → number_of number (if b then some log_level else none)
      ≡ number_of number (if b then some "" else none)
number_of-if number log_level true = refl
number_of-if number log_level false = refl

-- What the levels of the loggers are checked to.
record Checks (number : ℕ) (d : Dict String) : Type 0 where
  numbers : Dict ℕ
  checked : check_levels d ≡ some numbers
  found : (key : String) → find key numbers ≡ number_of number (find key d)

check_levels-Checks :
    (log_level : String) (number : ℕ) (d : Dict String)
    → find log_level level_names_mapping ≡ some number
    → HasLevel log_level d
    → Checks number d
unfolding check_levels find
check_levels-Checks log_level number [] e h = record {
  numbers = [];
  checked = refl;
  found = λ key. refl;
}
check_levels-Checks log_level number ((name, level) ∷ d) e h =
    let rest = check_levels-Checks log_level number d e h.1 in
    record {
      numbers = (name, number) ∷ rest.numbers;
      checked = rw (h.0, check_levels, e, rest.checked) refl;
      found = λ key. elim (Bool-cases (str_eq name key)) [
        | inl f ↦ rw f refl
        | inr f ↦ rw f (rest.found key)
      ];
    }

effective_level-application :
    (levels : Levels) (applications : List String) (number : ℕ) (names : List String)
    → ((key : String)
        → find key levels.loggers
          ≡ number_of number (if member str_eq key applications then some "" else none))
    → (number ≡ 0 → levels.root ≡ 0)
    → effective_level levels names
      ≡ (if any (λ name. member str_eq name applications) names then number else levels.root)
unfolding effective_level
effective_level-application levels applications number [] found unset = refl
effective_level-application levels applications number (name ∷ names) found unset =
    let above = effective_level-application levels applications number names found unset in
    elim (Bool-cases (member str_eq name applications)) [
      | inl e ↦
          let here : find name levels.loggers ≡ some number = found name ∙ rw e refl in
          elim (Bool-cases (number == 0)) [
            | inl z ↦
                let zero_number = (==_iff number 0).0 z in
                rw (effective_level, here, e, z)
                  (above
                    ∙ rw (unset zero_number, zero_number)
                        (if-same (any (λ name. member str_eq name applications) names) 0))
            | inr z ↦ rw (effective_level, here, e, z) refl
          ]
      | inr e ↦
          let here : find name levels.loggers ≡ none = found name ∙ rw e refl in
          rw (effective_level, here, e) above
    ]

-- The least level that reaches the console.
abbrev pub threshold : (number : ℕ) (is_application : Bool) → ℕ
threshold number is_application =
    if is_application then number else if ltb number 20 then number else max number 30

-- Whether a name is that of an application or lies below it.
abbrev pub is_application : List String → String → Bool
is_application applications name =
    any (λ other. member str_eq other applications) (name ∷ parents name)

passes :
    (number level : ℕ) (is_application : Bool)
    → (leb (if is_application then number else effective_root_level number 30) level
        && leb number level)
      ≡ leb (threshold number is_application) level
passes number level is_application = ground arith

-- After the set-up with a level, by its name in capitals, a record reaches the console if its level is at
-- least this one, where its logger is one of the application's or below it; and for the other loggers if it
-- is at least this one and WARNING, or only this one where this is below INFO.
pub setup_levels-threshold :
    (log_level : String) (number : ℕ) (applications : List String)
    → find log_level level_names_mapping ≡ some number
    → (levels : Levels) × (setup_levels log_level applications ≡ set_up levels)
      × ((name : String) (level : ℕ)
          → is_written levels name level
            ≡ leb (threshold number (is_application applications name)) level)
unfolding setup_levels dict_config
setup_levels-threshold log_level number applications e =
    let checks =
      check_levels-Checks log_level number (logger_levels log_level applications []) e
        (HasLevel-logger_levels log_level applications [] tt) in
    let levels : Levels = record {
      console = number;
      root = effective_root_level number 30;
      loggers = checks.numbers;
    } in
    let found : (key : String)
        → find key levels.loggers
          ≡ number_of number (if member str_eq key applications then some "" else none) =
      λ key.
        checks.found key
        ∙ rw (find-logger_levels log_level key applications [])
            (number_of-if number log_level (member str_eq key applications)) in
    (
      levels,
      rw (setup_levels, find-upper log_level number e, dict_config, e, checks.checked) refl,
      λ name level.
          rw
            (effective_level-application levels applications number (name ∷ parents name) found
              (λ z. rw z refl))
            (passes number level (is_application applications name)),
    )
