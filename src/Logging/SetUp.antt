-- ===== src/Logging/SetUp.antt =====
-- setup_logging and setup_structlog of common/core/logging.py. The processors of structlog are listed by
-- their names; those that the caller passes are of any type.
use flagsmith_common.Base.{
  ℕ, Bool, String, Option, none, some, List, [], ◌∷◌, ◌++◌, map, ltb, str_eq, if◌then◌else◌,
}
use flagsmith_common.Base.Text.{upper}
use flagsmith_common.Base.Dict.{Dict, find, put}
use flagsmith_common.Logging.Levels.{level_names_mapping, Levels, dict_config}

abbrev pub logging_default_root_log_level : String
logging_default_root_log_level = "WARNING"

pub data Processor (Extra : Type 0) : Type 0 where
  merge_contextvars filter_by_level add_logger_name add_log_level positional_arguments_formatter
        stack_info_renderer unicode_decoder format_exc_info time_stamper extra_adder
        sentry_processor wrap_for_formatter remove_processors_meta map_event_to_json_record
        json_renderer :
      Processor Extra
  console_renderer : (colors : Bool) → Processor Extra
  extra : Extra → Processor Extra

-- The processors of the formatter, of the records of other loggers, and of those of structlog.
pub record Structlog (Extra : Type 0) : Type 0 where
  pub formatter : List (Processor Extra)
  pub foreign_pre_chain : List (Processor Extra)
  pub configured : List (Processor Extra)

module _ {Extra : Type 0} where
  unfoldable pub setup_structlog :
      (has_colors : Bool) (log_format : String)
      (extra_foreign_processors otel_processors : List Extra)
      → Structlog Extra
  setup_structlog has_colors log_format extra_foreign_processors otel_processors = record {
    formatter =
        remove_processors_meta
        ∷ (if str_eq log_format "json"
            then map_event_to_json_record ∷ json_renderer ∷ []
            else console_renderer has_colors ∷ []);
    foreign_pre_chain =
        merge_contextvars
        ∷ add_logger_name
        ∷ add_log_level
        ∷ time_stamper
        ∷ format_exc_info
        ∷ extra_adder
        ∷ map extra extra_foreign_processors;
    configured =
        merge_contextvars
          ∷ filter_by_level
          ∷ add_logger_name
          ∷ add_log_level
          ∷ positional_arguments_formatter
          ∷ stack_info_renderer
          ∷ unicode_decoder
          ∷ format_exc_info
          ∷ time_stamper
          ∷ sentry_processor
          ∷ map extra otel_processors
        ++ wrap_for_formatter ∷ [];
  }

-- The dict comprehension over application_loggers.
unfoldable pub logger_levels : String → List String → Dict String → Dict String
unfolding put
logger_levels log_level [] levels = levels
logger_levels log_level (name ∷ names) levels =
    logger_levels log_level names (put name log_level levels)

-- The level of the root, for the numbers of the level that is asked for and of the default.
abbrev pub effective_root_level : ℕ → ℕ → ℕ
effective_root_level log_level_int root_level_int =
    if ltb log_level_int 20 then log_level_int else root_level_int

-- How the levels are set: KeyError is the one of a level that is no name in capitals either.
pub data SetUp : Type 0 where
  set_up : Levels → SetUp
  key_error value_error : SetUp

abbrev configured_or_error : Option Levels → SetUp
configured_or_error none = value_error
configured_or_error (some levels) = set_up levels

unfoldable pub setup_levels : (log_level : String) (application_loggers : List String) → SetUp
unfolding upper find logger_levels dict_config
setup_levels log_level application_loggers = elim (find (upper log_level) level_names_mapping) [
  | none ↦ key_error
  | some log_level_int ↦ elim (find logging_default_root_log_level level_names_mapping) [
    | none ↦ key_error
    | some root_level_int ↦ configured_or_error (
        dict_config (record {
          console_level = log_level;
          root_level = effective_root_level log_level_int root_level_int;
          logger_levels = logger_levels log_level application_loggers [];
        }))
  ]
]

module _ {Extra : Type 0} (configure_from_file : String → SetUp) where
  -- What a file configures is a parameter. An error leaves structlog as it is.
  unfoldable pub setup_logging :
      (has_colors : Bool) (log_level log_format : String)
      (logging_configuration_file : Option String) (application_loggers : List String)
      (extra_foreign_processors otel_processors : List Extra)
      → SetUp × Option (Structlog Extra)
  unfolding setup_levels setup_structlog
  setup_logging has_colors log_level log_format logging_configuration_file application_loggers
        extra_foreign_processors otel_processors =
      let levels : SetUp = elim logging_configuration_file [
        | none ↦ setup_levels log_level application_loggers
        | some file ↦
            if str_eq file ""
            then setup_levels log_level application_loggers
            else configure_from_file file
      ] in
      elim levels [
        | set_up l ↦ (
          set_up l,
          some (setup_structlog has_colors log_format extra_foreign_processors otel_processors),
        )
        | key_error ↦ (key_error, none)
        | value_error ↦ (value_error, none)
      ]
