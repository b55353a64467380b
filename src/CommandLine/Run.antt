-- ===== src/CommandLine/Run.antt =====
-- common/core/cli/run.py: the verbs that make up the start of a service.
use flagsmith_common.Base.{
  ℕ, Bool, true, false, String, Option, none, some, List, [], ◌∷◌, ◌++◌, if◌then◌else◌, str_eq,
}
use flagsmith_common.CommandLine.Django.{Command, Process, django, for_each}

-- The settings, with their defaults filled in, and the environment variable.
pub record Settings : Type 0 where
  pub flagsmith_migrate_databases : List String
  pub flagsmith_wait_for_migrations_databases : List String
  pub flagsmith_startup_commands : List String
  pub skip_wait_for_db : Option String

abbrev pub default_settings : Settings
default_settings = record {
  flagsmith_migrate_databases = "default" ∷ [];
  flagsmith_wait_for_migrations_databases = "default" ∷ [];
  flagsmith_startup_commands = [];
  skip_wait_for_db = none;
}

-- An empty value of the variable counts as none.
abbrev pub skips : Settings → Bool
skips settings = elim settings.skip_wait_for_db [
  | none ↦ false
  | some value ↦ if str_eq value "" then false else true
]

abbrev pub wait_for_migrations_timeout_seconds : ℕ
wait_for_migrations_timeout_seconds = 30

-- `text` is str, for numbers.
module _ (text : ℕ → String) where
  abbrev waitfor_arguments : Option ℕ → List String
  waitfor_arguments none = []
  waitfor_arguments (some wait_for) = "--waitfor" ∷ text wait_for ∷ []

  abbrev pub waitfordb : Bool → String → Option ℕ → Command
  waitfordb wait_for_migrations database wait_for =
      "waitfordb" ∷ "--database" ∷ database ∷ waitfor_arguments wait_for
      ++ (if wait_for_migrations then "--migrations" ∷ [] else [])

module _ (text : ℕ → String) (returns : ℕ → Command → Bool) (settings : Settings) where
  abbrev pub wait_for_db : Bool → String → Option ℕ → Process → Process
  wait_for_db wait_for_migrations database wait_for p =
      if skips settings
      then p
      else django returns (waitfordb text wait_for_migrations database wait_for) p

  unfoldable pub do_migrate : Process → Process
  unfolding django for_each
  do_migrate p = django returns ("createcachetable" ∷ []) (
      for_each returns (λ database. django returns ("migrate" ∷ "--database" ∷ database ∷ []))
        settings.flagsmith_migrate_databases (wait_for_db false "default" none p))

  unfoldable pub migrate : List String → Process → Process
  unfolding do_migrate
  migrate [] p = do_migrate p
  migrate (arg ∷ argv) p = django returns ("migrate" ∷ arg ∷ argv) p

  unfoldable pub serve : List String → Process → Process
  unfolding django
  serve argv p = django returns ("start" ∷ "api" ∷ argv) (wait_for_db false "default" none p)

  unfoldable pub run_task_processor : List String → Process → Process
  unfolding do_migrate
  run_task_processor argv p = django returns ("start" ∷ "task-processor" ∷ argv) (
      for_each returns
        (λ database. wait_for_db true database (some wait_for_migrations_timeout_seconds))
        settings.flagsmith_wait_for_migrations_databases (do_migrate p))

  -- A command that is a text: none if shlex.split raises.
  abbrev startup_command : Option Command → Process → Process
  startup_command none p = record p { raised = true }
  startup_command (some command) p = django returns command p

  -- `split` is shlex.split.
  unfoldable pub migrate_and_serve :
      (split : String → Option (List String)) → List String → Process → Process
  unfolding do_migrate
  migrate_and_serve split argv p = django returns ("start" ∷ "api" ∷ argv) (
      for_each returns (λ command. startup_command (split command))
        settings.flagsmith_startup_commands (do_migrate p))
