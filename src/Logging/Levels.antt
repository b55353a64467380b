-- ===== src/Logging/Levels.antt =====
-- What setup_logging uses of Python's logging: the levels by their names, the configuration by a dict, and
-- which records reach the console.
use Prim.Native.Char.{code}
use flagsmith_common.Base.{
  ℕ, Bool, ◌&&◌, String, Option, none, some, List, [], ◌∷◌, ◌++◌, map, leb, ◌==◌, if◌then◌else◌,
}
use flagsmith_common.Base.Dict.{Dict, find}

-- logging.getLevelNamesMapping()
abbrev pub level_names_mapping : Dict ℕ
level_names_mapping =
    ("CRITICAL", 50)
    ∷ ("FATAL", 50)
    ∷ ("ERROR", 40)
    ∷ ("WARN", 30)
    ∷ ("WARNING", 30)
    ∷ ("INFO", 20)
    ∷ ("DEBUG", 10)
    ∷ ("NOTSET", 0)
    ∷ []

-- The dict that setup_logging makes: the level of the handler of the console and those of the loggers by
-- their names, the level of the root by its number.
pub record DictConfig : Type 0 where
  pub console_level : String
  pub root_level : ℕ
  pub logger_levels : Dict String

-- The levels that are in force.
pub record Levels : Type 0 where
  pub console : ℕ
  pub root : ℕ
  pub loggers : Dict ℕ

unfoldable pub check_levels : Dict String → Option (Dict ℕ)
unfolding find
check_levels [] = some []
check_levels ((name, level) ∷ loggers) =
    let rest = check_levels loggers in
    elim (find level level_names_mapping) [
      | none ↦ none
      | some number ↦ elim rest [ none ↦ none | some numbers ↦ some ((name, number) ∷ numbers) ]
    ]

-- logging.config.dictConfig, where none is the ValueError of a level that has no such name.
unfoldable pub dict_config : DictConfig → Option Levels
unfolding check_levels find
dict_config config = elim (find config.console_level level_names_mapping) [
  | none ↦ none
  | some console ↦ elim (check_levels config.logger_levels) [
    | none ↦ none
    | some loggers ↦
        some (record { console = console; root = config.root_level; loggers = loggers })
  ]
]

-- The parts of a name that end in front of a dot, the longest first.
unfoldable pub parents : String → List String
parents String.[] = []
parents (String.◌∷◌ c s) =
    map (λ t. String.◌∷◌ c t) (parents s) ++ (if code c == b'.' then "" ∷ [] else [])

-- The first logger of a name and its parents that has a level, or else the root. A level of 0 is none.
unfoldable pub effective_level : Levels → List String → ℕ
unfolding find
effective_level levels [] = levels.root
effective_level levels (name ∷ names) =
    let above = effective_level levels names in
    elim (find name levels.loggers) [
      | none ↦ above
      | some number ↦ if number == 0 then above else number
    ]

-- Whether a record of a logger reaches the console: both the logger and the handler let its level pass.
abbrev pub is_written : Levels → (name : String) (level : ℕ) → Bool
is_written levels name level =
    leb (effective_level levels (name ∷ parents name)) level && leb levels.console level
