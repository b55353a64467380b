-- ===== src/CommandLine/Main.antt =====
-- execute_from_command_line of common/core/main.py: the own verbs, and Django for all else.
use flagsmith_common.Base.{String, Option, none, some, List, [], ◌∷◌, if◌then◌else◌, ◌==◌}
use Prim.Native.Char.{code}
use flagsmith_common.Base.Text.{concat}
use flagsmith_common.Base.Dict.{Dict, find}

pub data Verb : Type 0 where
  healthcheck_main serve_verb migrate_verb run_task_processor_verb migrate_and_serve_verb : Verb

abbrev pub subcommands : Dict Verb
subcommands =
    ("healthcheck", healthcheck_main)
    ∷ ("checktaskprocessorthreadhealth", healthcheck_main)
    ∷ ("serve", serve_verb)
    ∷ ("migrate", migrate_verb)
    ∷ ("run-task-processor", run_task_processor_verb)
    ∷ ("migrate-and-serve", migrate_and_serve_verb)
    ∷ []

-- What is called, and with which arguments.
pub data Invocation : Type 0 where
  own : Verb → (argv : List String) (prog : String) → Invocation
  of_django : (argv : List String) → Invocation

-- What stands behind the last slash, if there is one.
abbrev behind_slash : String → Option String
behind_slash String.[] = none
behind_slash (String.◌∷◌ c s) = elim (behind_slash s) [
  | some name ↦ some name
  | none ↦ if code c == b'/' then some s else none
]

-- os.path.basename
abbrev basename : String → String
basename path = elim (behind_slash path) [ none ↦ path | some name ↦ name ]

-- With less than two arguments, or a subcommand that is none of the own ones, Django is called.
unfoldable pub execute_from_command_line : List String → Invocation
unfolding find concat
execute_from_command_line (program ∷ subcommand ∷ argv) = elim (find subcommand subcommands) [
  | none ↦ of_django (program ∷ subcommand ∷ argv)
  | some verb ↦ own verb argv (concat (basename program) (concat " " subcommand))
]
execute_from_command_line argv = of_django argv
