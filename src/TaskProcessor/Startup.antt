-- ===== src/TaskProcessor/Startup.antt =====
-- task_processor/utils.py, constants.py and health.py: the configuration of a processor, and the health
-- check that sends a task through the queue.
use flagsmith_common.Base.{
  ℕ, Bool, true, false, String, Option, none, some, List, [], ◌∷◌, any, filter, not, str_eq,
  if◌then◌else◌,
}
use flagsmith_common.TaskProcessor.Threads.{TaskProcessorConfig}
use flagsmith_common.TaskProcessor.Database.{Database}

abbrev pub default_task_processor_num_threads : ℕ
default_task_processor_num_threads = 5

abbrev pub default_task_processor_sleep_interval_ms : ℕ
default_task_processor_sleep_interval_ms = 500

abbrev pub default_task_processor_grace_period_ms : ℕ
default_task_processor_grace_period_ms = 20_000

abbrev pub default_task_processor_queue_pop_size : ℕ
default_task_processor_queue_pop_size = 10

-- What env.int finds: none for a variable that is not set.
abbrev pub Environment : Type 0
Environment = String → Option ℕ

abbrev int : Environment → String → ℕ → ℕ
int env name default = elim (env name) [ none ↦ default | some n ↦ n ]

-- The arguments of the command line, none for those that are not given.
pub record Arguments : Type 0 where
  pub numthreads : Option ℕ
  pub sleepintervalms : Option ℕ
  pub graceperiodms : Option ℕ
  pub queuepopsize : Option ℕ

abbrev given_or : Option ℕ → ℕ → ℕ
given_or none default = default
given_or (some n) default = n

-- add_arguments, and the configuration of start_task_processor.
unfoldable pub config_of : Environment → Arguments → TaskProcessorConfig
config_of env options = record {
  num_threads =
      given_or options.numthreads
        (int env "TASK_PROCESSOR_NUM_THREADS" default_task_processor_num_threads);
  sleep_interval_ms = given_or options.sleepintervalms (
      int env "TASK_PROCESSOR_SLEEP_INTERVAL_MS"
        (int env "TASK_PROCESSOR_SLEEP_INTERVAL" default_task_processor_sleep_interval_ms));
  grace_period_ms =
      given_or options.graceperiodms
        (int env "TASK_PROCESSOR_GRACE_PERIOD_MS" default_task_processor_grace_period_ms);
  queue_pop_size =
      given_or options.queuepopsize
        (int env "TASK_PROCESSOR_QUEUE_POP_SIZE" default_task_processor_queue_pop_size);
}

abbrev has_health_check : String → Database → Bool
has_health_check uuid db = any (λ other. str_eq other uuid) db.health_checks

-- is_processor_healthy, behind the call of `delay`: `polls` are the databases at the moments at which
-- the library backoff lets it look, up to the first success. A model that is found is deleted.
unfoldable pub poll : String → List Database → Bool × Option Database
unfolding filter
poll uuid [] = (false, none)
poll uuid (db ∷ polls) =
    let rest = poll uuid polls in
    if has_health_check uuid db
    then (
      true,
      some (record db {
        health_checks = filter (λ other. not (str_eq other uuid)) db.health_checks;
      }),
    )
    else rest
