-- ===== src/CommandLine/Environment.antt =====
-- ensure_cli_env of common/core/main.py: the environment variables, and what is set up from them.
use flagsmith_common.Base.{
  Bool, String, Option, none, some, List, [], ◌∷◌, ◌++◌, if◌then◌else◌, str_eq,
}
use flagsmith_common.Base.Sets.{member}
use flagsmith_common.Base.Dict.{Dict, find, put, put_default}
use flagsmith_common.Otel.Endpoints.{
  OtlpProtocol, grpc, http_protobuf, resolve_otlp_export_endpoints,
}

-- sys.path and os.environ
pub record World : Type 0 where
  pub path : List String
  pub environ : Dict String

-- What is made for OpenTelemetry.
pub record Telemetry : Type 0 where
  pub service_name : String
  pub protocol : OtlpProtocol
  pub traces_endpoint : String
  pub logs_endpoint : String
  pub excluded_urls : Option String

-- The arguments of setup_logging.
pub record Logging : Type 0 where
  pub log_level : String
  pub log_format : String
  pub logging_configuration_file : Option String
  pub application_loggers : Option (List String)
  pub access_log_extra_items : Option (List String)
  pub telemetry : Option Telemetry

-- env.str(name, default)
abbrev pub str : Dict String → String → String → String
str environ name default = elim (find name environ) [ none ↦ default | some value ↦ value ]

-- A variable that is unset or empty counts as none.
abbrev pub if_set : Option String → Option String
if_set none = none
if_set (some value) = if str_eq value "" then none else some value

-- validate.OneOf: none if the text is no protocol.
abbrev protocol_named : String → Option OtlpProtocol
protocol_named name =
    if str_eq name "grpc"
    then some grpc
    else if str_eq name "http/protobuf"
    then some http_protobuf
    else none

abbrev default_otlp_protocol : String
default_otlp_protocol = "http/protobuf"

abbrev default_service_name : List String → String
default_service_name argv =
    if member str_eq "task-processor" argv then "flagsmith-task-processor" else "flagsmith-api"

unfoldable pub telemetry_of : List String → Dict String → String → Option Telemetry
unfolding find resolve_otlp_export_endpoints
telemetry_of argv environ otel_endpoint =
    elim (protocol_named (str environ "OTEL_EXPORTER_OTLP_PROTOCOL" default_otlp_protocol)) [
      | none ↦ none
      | some protocol ↦ some (record {
        service_name = str environ "OTEL_SERVICE_NAME" (default_service_name argv);
        protocol = protocol;
        traces_endpoint = (resolve_otlp_export_endpoints otel_endpoint protocol).0;
        logs_endpoint = (resolve_otlp_export_endpoints otel_endpoint protocol).1;
        excluded_urls = find "OTEL_TRACING_EXCLUDED_URL_PATHS" environ;
      })
    ]

-- none: a validation error. some none: no telemetry.
abbrev pub optional_telemetry :
    List String → Dict String → Option String → Option (Option Telemetry)
optional_telemetry argv environ none = some none
optional_telemetry argv environ (some otel_endpoint) =
    elim (telemetry_of argv environ otel_endpoint) [
      | none ↦ none
      | some telemetry ↦ some (some telemetry)
    ]

-- env.list(name, []) or None, with `items` for the split of a text.
abbrev list_or_none : (items : String → List String) → Option String → Option (List String)
list_or_none items none = none
list_or_none items (some value) = elim (items value) [
  | [] ↦ none
  | item ∷ rest ↦ some (item ∷ rest)
]

abbrev pub flag_if : Bool → String → Dict String → Dict String
flag_if holds name environ = if holds then put name "true" environ else environ

-- The variables that are set before any is read.
unfoldable pub prepare_environ : List String → Dict String → Dict String
unfolding find put
prepare_environ argv environ = flag_if (member str_eq "task-processor" argv) "RUN_BY_PROCESSOR" (
    flag_if (member str_eq "docgen" argv) "DOCGEN_MODE"
      (put_default "DJANGO_SETTINGS_MODULE" "settings.dev" environ))

-- `temporary` is the name of the new directory.
abbrev pub with_multiproc_dir : (temporary : String) → Dict String → Dict String
with_multiproc_dir temporary environ = elim (if_set (find "PROMETHEUS_MULTIPROC_DIR" environ)) [
  | none ↦ put "PROMETHEUS_MULTIPROC_DIR" temporary environ
  | some _ ↦ environ
]

abbrev pub logging_of : (items : String → List String) → Dict String → Option Telemetry → Logging
logging_of items environ telemetry = record {
  log_level = str environ "LOG_LEVEL" "INFO";
  log_format = str environ "LOG_FORMAT" "generic";
  logging_configuration_file = find "LOGGING_CONFIGURATION_FILE" environ;
  application_loggers = list_or_none items (find "APPLICATION_LOGGERS" environ);
  access_log_extra_items = list_or_none items (find "ACCESS_LOG_EXTRA_ITEMS" environ);
  telemetry = telemetry;
}

module _ (cwd temporary : String) (items : String → List String) where
  -- ensure_cli_env, up to its `yield`. none: a validation error.
  unfoldable pub ensure_cli_env : List String → World → Option (World × Logging)
  unfolding prepare_environ telemetry_of find put
  ensure_cli_env argv world =
      let environ = prepare_environ argv world.environ in
      elim (optional_telemetry argv environ (if_set (find "OTEL_EXPORTER_OTLP_ENDPOINT" environ))) [
        | none ↦ none
        | some telemetry ↦ some (
          record { path = world.path ++ cwd ∷ []; environ = with_multiproc_dir temporary environ },
          logging_of items environ telemetry,
        )
      ]
