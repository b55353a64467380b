-- ===== src/Otel/Records.antt =====
-- The processor that emits log records to OpenTelemetry, and the one that adds the ids of the span.
use flagsmith_common.Base.{
  ℕ, Bool, String, Option, none, some, List, [], ◌∷◌, str_eq, if◌then◌else◌,
}
use flagsmith_common.Base.Text.{replace_dunder}
use flagsmith_common.Base.Sets.{member}
use flagsmith_common.Base.Dict.{Dict, find, put}
use flagsmith_common.Otel.Events.{get_otel_event_name}

abbrev pub reserved_keys : List String
reserved_keys = "event" ∷ "level" ∷ "timestamp" ∷ "logger" ∷ "trace_id" ∷ "span_id" ∷ []

pub data SeverityNumber : Type 0 where
  trace_severity debug_severity info_severity warn_severity error_severity fatal_severity :
      SeverityNumber

abbrev severity_map : Dict SeverityNumber
severity_map =
    ("debug", debug_severity)
    ∷ ("info", info_severity)
    ∷ ("warning", warn_severity)
    ∷ ("error", error_severity)
    ∷ ("critical", fatal_severity)
    ∷ []

-- `Number` are Python's numbers, `Object` all values that are neither texts, Booleans nor numbers.
pub data AnyValue (Number : Type 0) : Type 0 where
  text : String → AnyValue Number
  boolean : Bool → AnyValue Number
  number : Number → AnyValue Number

pub data Value (Number Object : Type 0) : Type 0 where
  plain : AnyValue Number → Value Number Object
  object : Object → Value Number Object

pub record LogRecord (Number : Type 0) : Type 0 where
  pub severity_text : String
  pub severity_number : SeverityNumber
  pub body : String
  pub event_name : String
  pub attributes : Dict (AnyValue Number)

-- What the processor sends: the record, and the event of the span if one is recording.
pub record Emitted (Number : Type 0) : Type 0 where
  pub log_record : LogRecord Number
  pub span_event : Option (String × Dict (AnyValue Number))

module _ {Number : Type 0} where
  -- The baggage, with its values as texts.
  unfoldable pub copy_baggage : Dict String → Dict (AnyValue Number) → Dict (AnyValue Number)
  unfolding put
  copy_baggage [] attributes = attributes
  copy_baggage ((key, value) ∷ baggage) attributes =
      copy_baggage baggage (put key (text value) attributes)

module _ {Number Object : Type 0} where
  -- A key under which structlog puts a text.
  abbrev pub text_at : String → Dict (Value Number Object) → Option String
  text_at key event_dict = elim (find key event_dict) [
    | some (plain (text value)) ↦ some value
    | _ ↦ none
  ]

  -- trace_id and span_id of a valid context; `hex` is the format of a number with so many digits.
  unfoldable pub add_otel_trace_context :
      (hex : (width id : ℕ) → String)
      → Option (ℕ × ℕ)
      → Dict (Value Number Object)
      → Dict (Value Number Object)
  unfolding put
  add_otel_trace_context hex none event_dict = event_dict
  add_otel_trace_context hex (some (trace_id, span_id)) event_dict =
      put "span_id" (plain (text (hex 16 span_id)))
        (put "trace_id" (plain (text (hex 32 trace_id))) event_dict)

  abbrev pub event_name_of : (underscore : String → String) → Dict (Value Number Object) → String
  event_name_of underscore event_dict =
      get_otel_event_name underscore (text_at "logger" event_dict)
        (elim (text_at "event" event_dict) [ none ↦ "" | some body ↦ body ])

  -- `dumps` is json.dumps, with default=str.
  module _ (dumps : Object → String) where
    abbrev pub map_value_to_otel_value : Value Number Object → AnyValue Number
    map_value_to_otel_value (plain value) = value
    map_value_to_otel_value (object value) = text (dumps value)

    -- The comprehension, item by item: of two keys that become equal the later one stays.
    unfoldable pub map_items :
        Dict (Value Number Object) → Dict (AnyValue Number) → Dict (AnyValue Number)
    unfolding put replace_dunder
    map_items [] attributes = attributes
    map_items ((key, value) ∷ items) attributes =
        let without = map_items items attributes in
        let with_value =
          map_items items (put (replace_dunder key) (map_value_to_otel_value value) attributes) in
        if member str_eq key reserved_keys then without else with_value

    abbrev pub map_event_dict_to_otel_attributes :
        Dict (Value Number Object) → Dict (AnyValue Number)
    map_event_dict_to_otel_attributes event_dict = map_items event_dict []

    -- The processor of make_structlog_otel_processor, which returns the event dict as it is.
    unfoldable pub processor :
        (underscore : String → String)
        → Dict String
        → Bool
        → String
        → Dict (Value Number Object)
        → Emitted Number × Dict (Value Number Object)
    unfolding map_items copy_baggage get_otel_event_name find
    processor underscore baggage is_recording method_name event_dict =
        let event_name = event_name_of underscore event_dict in
        let attributes =
          put "flagsmith.event" (text event_name)
            (copy_baggage baggage (map_event_dict_to_otel_attributes event_dict)) in
        let log_level : String = elim (text_at "level" event_dict) [
          | none ↦ method_name
          | some level ↦ level
        ] in
        (
          record {
            log_record = record {
              severity_text = log_level;
              severity_number = elim (find log_level severity_map) [
                | none ↦ trace_severity
                | some severity ↦ severity
              ];
              body = elim (text_at "event" event_dict) [ none ↦ "" | some body ↦ body ];
              event_name = event_name;
              attributes = attributes;
            };
            span_event = if is_recording then some (event_name, attributes) else none;
          },
          event_dict,
        )
