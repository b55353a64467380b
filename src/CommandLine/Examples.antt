-- ===== src/CommandLine/Examples.antt =====
-- The theorems on the command `flagsmith`, at a start of the task processor.
use flagsmith_common.Base.{ℕ, ◌≡◌, refl, Bool, not, String, none, List, [], ◌∷◌, ◌==◌}
use flagsmith_common.Base.Dict.{find}
use flagsmith_common.CommandLine.Django.{Command, new_process}
use flagsmith_common.CommandLine.Run.{Settings, run_task_processor}
use flagsmith_common.CommandLine.Plans.{Outcome, task_processor_plan, run_task_processor-Outcome}
use flagsmith_common.CommandLine.Environment.{World, logging_of, ensure_cli_env, prepare_environ}
use flagsmith_common.CommandLine.Prepared.{IsPrepared, ensure_cli_env-IsPrepared}
use flagsmith_common.CommandLine.Main.{execute_from_command_line, own, run_task_processor_verb}

abbrev thirty : ℕ → String
thirty n = "30"

-- The second migration raises.
abbrev returns : ℕ → Command → Bool
returns n command = not (n == 2)

abbrev settings : Settings
settings = record {
  flagsmith_migrate_databases = "default" ∷ "task_processor" ∷ [];
  flagsmith_wait_for_migrations_databases = "task_processor" ∷ [];
  flagsmith_startup_commands = [];
  skip_wait_for_db = none;
}

issued_test :
    (run_task_processor thirty returns settings [] new_process).issued
    ≡ ("waitfordb" ∷ "--database" ∷ "default" ∷ [])
      ∷ ("migrate" ∷ "--database" ∷ "default" ∷ [])
      ∷ ("migrate" ∷ "--database" ∷ "task_processor" ∷ [])
      ∷ []
unfolding run_task_processor
issued_test = refl

run_task_processor-Outcome_example :
    Outcome returns
      (task_processor_plan thirty settings)
      ("start" ∷ "task-processor" ∷ [])
      (run_task_processor thirty returns settings [] new_process)
run_task_processor-Outcome_example = run_task_processor-Outcome thirty returns settings []

abbrev world : World
world = record { path = []; environ = ("LOG_LEVEL", "DEBUG") ∷ [] }

-- The split of env.list, were no list to be given.
abbrev no_items : String → List String
no_items value = []

abbrev world_after : World
world_after = record {
  path = "/app" ∷ [];
  environ =
      ("LOG_LEVEL", "DEBUG")
      ∷ ("DJANGO_SETTINGS_MODULE", "settings.dev")
      ∷ ("RUN_BY_PROCESSOR", "true")
      ∷ ("PROMETHEUS_MULTIPROC_DIR", "/tmp/flagsmith-prometheus-1")
      ∷ [];
}

abbrev arguments : List String
arguments = "flagsmith" ∷ "start" ∷ "task-processor" ∷ []

ensure_cli_env-IsPrepared_example : IsPrepared arguments world.environ world_after.environ
unfolding ensure_cli_env
ensure_cli_env-IsPrepared_example =
    ensure_cli_env-IsPrepared "/app" "/tmp/flagsmith-prometheus-1" no_items arguments world
      world_after (logging_of no_items world_after.environ none) refl

verb_test :
    execute_from_command_line ("/usr/bin/flagsmith" ∷ "run-task-processor" ∷ "--numthreads" ∷ [])
    ≡ own run_task_processor_verb ("--numthreads" ∷ []) "flagsmith run-task-processor"
unfolding execute_from_command_line
verb_test = refl

-- The verb run-task-processor is no argument task-processor.
run_by_processor_test :
    find "RUN_BY_PROCESSOR" (prepare_environ ("flagsmith" ∷ "run-task-processor" ∷ []) []) ≡ none
unfolding prepare_environ
run_by_processor_test = refl
