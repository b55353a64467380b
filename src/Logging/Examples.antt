-- ===== src/Logging/Examples.antt =====
-- The theorems on logging, at one event and at one set-up.
use flagsmith_common.Base.{ℕ, ◌≡◌, refl, leb, String, some, [], ◌∷◌}
use flagsmith_common.Base.Dict.{Dict, find}
use flagsmith_common.Logging.Records.{Value, text, map_event_to_json_record}
use flagsmith_common.Logging.Fields.{field, map_event_to_json_record-field}
use flagsmith_common.Logging.Levels.{Levels, is_written}
use flagsmith_common.Logging.SetUp.{set_up, setup_levels}
use flagsmith_common.Logging.Thresholds.{threshold, is_application, setup_levels-threshold}

abbrev event : Dict (Value ℕ)
event =
    ("event", text "flag_created") ∷ ("level", text "info") ∷ ("exception", text "KeyError") ∷ []

map_event_to_json_record-field_example :
    (written : Dict (Value ℕ)) × (map_event_to_json_record
        (Value.object 7)
        (text "MainThread")
        event
      ≡ some written)
    × ((key : String)
        → find key written ≡ field (Value.object 7) (text "MainThread") "info" event key)
unfolding find
map_event_to_json_record-field_example =
    map_event_to_json_record-field (Value.object 7) (text "MainThread") event "info" refl

setup_levels-threshold_example :
    (levels : Levels) × (setup_levels "ERROR" ("app" ∷ []) ≡ set_up levels)
    × ((name : String) (level : ℕ)
        → is_written levels name level
          ≡ leb (threshold 40 (is_application ("app" ∷ []) name)) level)
unfolding find
setup_levels-threshold_example = setup_levels-threshold "ERROR" 40 ("app" ∷ []) refl
