-- ===== src/Lib.antt =====
-- A model of the Python package flagsmith-common, the library that the services of Flagsmith share,
-- with theorems on its task processor above all: the queue of tasks in PostgreSQL tables, the workers that
-- take tasks from it and execute them, and the recurring tasks with their schedule.
--
-- How the parts interact. A function is made a handler by a decorator, which enters it in the
-- registry under its identifier. A call of `delay` on the handler writes a row into the table of
-- tasks. Each runner thread picks a batch of rows that are due, which locks them, executes their
-- functions with a timeout, and writes the results back, which unlocks them. Recurring tasks are
-- registered likewise, saved to a table of their own when the processor starts, and picked one at a
-- time.
--
-- Which file models which part of src/task_processor/:
--   TaskProcessor/Models/Fields, Standard, Recurring, Schedule
--     models.py: AbstractBaseTask and AbstractTaskRun; Task with create, mark_failure and
--     mark_success; RecurringTask with unlock, mark_failure, mark_success, reconcile_abandoned_run
--     and is_task_registered; RecurringTask.should_execute.
--   TaskProcessor/Queue
--     managers.py, monitoring.py, migrations/sql/0011_get_tasks_to_process.sql and
--     0015_get_recurringtasks_to_process.sql. A call of a SQL function is one transaction and here one
--     step: it takes the table and returns the rows picked and the table left. A predicate `busy` tells
--     the rows that other transactions hold, which FOR UPDATE SKIP LOCKED passes over.
--   TaskProcessor/Processor/Single, Batch, Recurrence
--     processor.py: _run_task, run_tasks and run_recurring_task. TaskModel is the interface that
--     _run_task asks of both models. Surroundings and Occasion hold what happens around a call: the
--     clock, the other transactions, how long the functions run and how they end, and an arbitrary
--     change of the database by the tasks and by other processes.
--   TaskProcessor/Registry
--     task_registry.py, and get_task_identifier_from_function of utils.py.
--   TaskProcessor/Decorators
--     decorators.py. What a handler does outside the database is a list of effects.
--     What other callers do between the count of the queue and the insertion is a parameter; Callers
--     has the steps of several callers at once.
--   TaskProcessor/Tasks
--     tasks.py. The loop of clean_up_old_tasks runs on fuel; more fuel than there are old tasks is
--     enough, since each DELETE that finds a task leaves fewer of them.
--   TaskProcessor/Threads
--     threads.py: one round of a runner over its databases, and the test for unhealthy threads; in
--     Threads/Runs the loop of a runner, for a list of rounds with the clock and the calls of stop().
--   TaskProcessor/Rounds
--     a worker that calls run_tasks over and over: the attempts that its tasks have left.
--   TaskProcessor/Routing
--     routers.py, apps.py and the actions of admin.py.
--   TaskProcessor/Exceptions, Settings, Database, Json
--     exceptions.py and task_run_method.py; the settings that are read; the tables; and the JSON
--     codec, which is a parameter, as it is a library.
-- The proofs stand in the modules below these and in Workers, Batches, Outcomes, Returns and
-- Recurring; TaskProcessor/Examples applies each theorem to a small processor. Base holds the lists,
-- the tables with the statements that Django issues, and ORDER BY.
--   TaskProcessor/Startup
--     utils.py, constants.py and health.py: the configuration, and the polls of the health check.
--
-- And other components beside the task processor:
--   LintTests
--     src/common/lint_tests.py: the linter of test conventions, over the syntax tree that the library
--     `ast` makes, which is given by its nodes. Comments holds the regular expressions by hand.
--   Replicas
--     src/common/core/utils.py: using_database_replica. The loops run once around the replicas.
--   VersionInfo
--     src/common/core/utils.py: the reports on the version and the edition.
--   Validators
--     src/flagsmith_schemas/validators.py.
--   Schemas
--     src/flagsmith_schemas/: types.py in Types, dynamodb.py in Dynamodb and Environments, api.py in Api. A
--     key that may be missing has an option for its value. Validation composes the validators as the
--     annotations do; JsonGzipped and json_gzip have JSON and gzip as parameters.
--   WaitForDb
--     src/common/core/management/commands/waitfordb.py: the two loops of handle, on fuel: a loop is left
--     once the clock, which each round moves on, has passed the time to wait for.
--   Docgen
--     src/common/core/docgen/events.py and src/common/core/management/commands/docgen.py. Syntax has the
--     nodes of `ast` that the scanner tells apart; Scopes, Visitor and Walk are the scan of a module, Merge the
--     merge by names, Files the files of the applications and the command. A failed assertion, an
--     IndexError or a SyntaxError is none. The proofs stand in Steps, Walks, Merging and Documents.
--   Otel
--     src/common/core/otel.py: the names of events, the records that are emitted, and the endpoints. The
--     values under event, logger and level are texts, as structlog puts them there.
--   Gunicorn
--     src/common/gunicorn/: utils.py in Extras and Options; middleware.py and logging.py in Routes;
--     metrics_server.py and conf.py in MetricsServer, where each call is one step, for its lock, and
--     whether there is a directory is a parameter;
--     processors.py in AccessLog, where a log record is given by what the processor reads of it.
--   CommandLine
--     src/common/core/main.py and src/common/core/cli/: the verbs of run.py as sequences of Django
--     commands in a Process, which stops when one raises; the environment; the health checks.
--   TestTools
--     src/common/test_tools/: Snapshots with the disk before and after; Editions with the caches of
--     is_saas and is_enterprise. pathlib is a parameter; pytest sets a fixture up once for a test.
--   Logging
--     src/common/core/logging.py and sentry.py: Records, Levels with what is used of Python's logging, where
--     no logger has a level from before, and SetUp with the processors by their names.
-- Base/Text holds the operations of Python on texts that they use, for ASCII texts.
--
-- Numbers. A datetime is a count of microseconds from a midnight UTC, a timedelta a count of
-- microseconds, both not negative, so that comparisons of differences are written as sums. Counters
-- are not bounded: the columns are 32 bits wide.
--
-- Not modelled: metrics, spans and log lines (but for the labels and for the fields of Gunicorn and Logging),
-- the conversions of numbers by pydantic, the exporters of telemetry and their instrumentation, HTTP glue,
-- and the migrations but for the SQL functions named above.

pub mod Base
pub mod CommandLine
pub mod Docgen
pub mod Gunicorn
pub mod LintTests
pub mod Logging
pub mod Otel
pub mod Replicas
pub mod Schemas
pub mod TaskProcessor
pub mod TestTools
pub mod Validators
pub mod VersionInfo
pub mod WaitForDb
