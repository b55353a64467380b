-- ===== src/Logging/Records.antt =====
-- map_event_to_json_record of common/core/logging.py and sentry_processor of sentry.py, on event dicts whose
-- values are any objects of Python; of these, `text` tells the texts.
use flagsmith_common.Base.{not, String, Option, none, some, List, [], ◌∷◌, filter, str_eq}
use flagsmith_common.Base.Text.{upper}
use flagsmith_common.Base.Sets.{member}
use flagsmith_common.Base.Dict.{Dict, find, put, remove, update}

-- An object of Python, as far as the processors look at it.
pub data Value (Object : Type 0) : Type 0 where
  text : String → Value Object
  object : Object → Value Object

abbrev pub skip_context_fields : List String
skip_context_fields = "event" ∷ "level" ∷ "timestamp" ∷ "_record" ∷ []

abbrev pub EventDict : Type 0 → Type 0
EventDict Object = Dict (Value Object)

module _ {Object : Type 0} where
  -- event_dict.pop(key, ""), for its value.
  abbrev pub get : String → EventDict Object → Value Object
  get key event_dict = elim (find key event_dict) [ none ↦ text "" | some value ↦ value ]

  -- The record without exc_info; pid and thread_name are those of the process and of its current thread.
  abbrev pub json_record :
      (event logger pid thread_name : Value Object) (levelname : String) → EventDict Object
  json_record event logger pid thread_name levelname =
      ("message", event)
      ∷ ("levelname", text levelname)
      ∷ ("logger_name", logger)
      ∷ ("pid", pid)
      ∷ ("thread_name", thread_name)
      ∷ []

  -- None stands for the AttributeError of a level that has no upper().
  unfoldable pub map_event_to_json_record :
      (pid thread_name : Value Object) → EventDict Object → Option (EventDict Object)
  unfolding find remove update put upper
  map_event_to_json_record pid thread_name event_dict =
      let without_args = remove "positional_args" event_dict in
      let without_event = remove "event" without_args in
      let without_level = remove "level" without_event in
      let rest = remove "logger" without_level in
      elim (get "level" without_event) [
        | object _ ↦ none
        | text level ↦
            let written =
              json_record (get "event" without_args) (get "logger" without_level) pid thread_name
                (upper level) in
            elim (find "exception" rest) [
              | none ↦ some (update rest written)
              | some exception ↦
                  some (update (remove "exception" rest) (put "exc_info" exception written))
            ]
      ]

  -- The context that is set for "structlog". The event dict is passed on as it is.
  unfoldable pub sentry_context : EventDict Object → EventDict Object
  unfolding filter
  sentry_context event_dict =
      filter (λ entry. not (member str_eq entry.0 skip_context_fields)) event_dict

  abbrev pub sentry_processor : EventDict Object → EventDict Object × EventDict Object
  unfolding sentry_context
  sentry_processor event_dict = (sentry_context event_dict, event_dict)
