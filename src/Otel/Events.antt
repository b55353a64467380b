-- ===== src/Otel/Events.antt =====
-- get_otel_event_name
use flagsmith_common.Base.{String, Option, none, some, str_eq, if◌then◌else◌}
use flagsmith_common.Base.Text.{concat}

-- `if logger_name`: an empty name is no name.
abbrev prefixed : Option String → String → String
prefixed none normalised = normalised
prefixed (some logger_name) normalised =
    if str_eq logger_name "" then normalised else concat logger_name (concat "." normalised)

unfoldable pub get_otel_event_name :
    (underscore : String → String) (logger_name : Option String) (body : String) → String
unfolding concat
get_otel_event_name underscore logger_name body =
    prefixed logger_name (if str_eq body "" then "unknown" else underscore body)
