-- ===== src/Otel/Examples.antt =====
-- The theorem on the attributes of a log record, at a record with baggage.
use flagsmith_common.Base.{ℕ, ◌≡◌, refl, true, String, some, [], ◌∷◌, str_eq, if◌then◌else◌}
use flagsmith_common.Base.Dict.{Dict, find}
use flagsmith_common.Otel.Records.{text, number, Value, plain, processor}
use flagsmith_common.Otel.Attributes.{or_baggage, last_given, processor-attributes}

abbrev dumps : Unit {0} → String
dumps object = "{}"

-- inflection.underscore, for names that are written with underscores already
abbrev underscore : String → String
underscore body = body

abbrev event_dict : Dict (Value ℕ (Unit {0}))
event_dict =
    ("event", plain (text "scan_started"))
    ∷ ("logger", plain (text "code_references"))
    ∷ ("level", plain (text "info"))
    ∷ ("code__count", plain (number 3))
    ∷ []

abbrev baggage : Dict String
baggage = ("code.count", "4") ∷ []

processor-attributes_example :
    let (emitted, passed_on) = processor dumps underscore baggage true "info" event_dict in
    (find "code.count" emitted.log_record.attributes ≡ (
      if str_eq "flagsmith.event" "code.count"
      then some (text emitted.log_record.event_name)
      else or_baggage (find "code.count" baggage) (last_given dumps "code.count" event_dict)))
    × (passed_on ≡ event_dict)
processor-attributes_example =
    processor-attributes dumps underscore baggage true "info" event_dict (refl, tt) "code.count"

attributes_test :
    (processor dumps underscore baggage true "info" event_dict).0.log_record.attributes
    ≡ ("code.count", text "4") ∷ ("flagsmith.event", text "code_references.scan_started") ∷ []
unfolding processor
attributes_test = refl
