-- ===== src/Logging/Fields.antt =====
-- The proofs on the fields of a record that is written as JSON.
use flagsmith_common.Base.{
  ◌≡◌, refl, subst, All, ◌∙◌, inl, inr, Bool-cases, false, String, Option, none, some, List, [],
  ◌∷◌, str_eq, if◌then◌else◌,
}
use flagsmith_common.Base.Text.{upper, str_eq-≡}
use flagsmith_common.Base.Dict.{Dict, find, put, remove, update, find-put, find-remove}
use flagsmith_common.Logging.Records.{Value, text, get, map_event_to_json_record}

-- A property of a key holds if it holds of these names and of a key that is none of them.
split_key :
    (P : String → Type 0) (names : List String)
    → All P names
    → (key : String) → (All (λ name. str_eq name key ≡ false) names → P key)
    → P key
split_key P [] h key other = other tt
split_key P (name ∷ names) h key other = elim (Bool-cases (str_eq name key)) [
  | inl e ↦ subst P (str_eq-≡ name key e) h.0
  | inr e ↦ split_key P names h.1 key (λ r. other (e, r))
]

get-remove :
    {Object : Type 0} (key name : String) (d : Dict (Value Object))
    → str_eq name key ≡ false
    → get key (remove name d) ≡ get key d
get-remove key name d e = rw (get, find-remove key name d, e) refl

-- The keys that a record does not have as the event dict has them.
abbrev names : List String
names =
    "message" ∷ "levelname" ∷ "logger_name" ∷ "pid" ∷ "thread_name" ∷ "exc_info" ∷ "event" ∷ "level"
    ∷ "logger" ∷ "positional_args" ∷ "exception" ∷ []

module _ {Object : Type 0} (pid thread_name : Value Object) where
  -- What a record has under a key, by what the event dict has under its keys.
  abbrev pub field : (level : String) → Dict (Value Object) → String → Option (Value Object)
  field level d key =
      if str_eq "message" key
      then some (get "event" d)
      else if str_eq "levelname" key
      then some (text (upper level))
      else if str_eq "logger_name" key
      then some (get "logger" d)
      else if str_eq "pid" key
      then some pid
      else if str_eq "thread_name" key
      then some thread_name
      else if str_eq "exc_info" key
      then elim (find "exception" d) [ none ↦ find "exc_info" d | some exception ↦ some exception ]
      else if str_eq "event" key
      then none
      else if str_eq "level" key
      then none
      else if str_eq "logger" key
      then none
      else if str_eq "positional_args" key
      then none
      else if str_eq "exception" key
      then none
      else find key d

  -- The record without exc_info, put into an event dict.
  abbrev written_of : String → Dict (Value Object) → Dict (Value Object) → Dict (Value Object)
  written_of level d rest = put "thread_name" thread_name (
      put "pid" pid (
        put "logger_name" (get "logger" d)
          (put "levelname" (text (upper level)) (put "message" (get "event" d) rest))))

  -- What is found in it, by what is found in that event dict.
  abbrev over :
      String → Dict (Value Object) → Option (Value Object) → String → Option (Value Object)
  over level d found key =
      if str_eq "thread_name" key
      then some thread_name
      else if str_eq "pid" key
      then some pid
      else if str_eq "logger_name" key
      then some (get "logger" d)
      else if str_eq "levelname" key
      then some (text (upper level))
      else if str_eq "message" key
      then some (get "event" d)
      else found

  find-written_of :
      (level key : String) (d rest : Dict (Value Object))
      → find key (written_of level d rest) ≡ over level d (find key rest) key
  find-written_of level key d rest =
      rw
        (
          find-put key "thread_name" thread_name,
          find-put key "pid" pid,
          find-put key "logger_name" (get "logger" d),
          find-put {A = Value Object} key "levelname" (text (upper level)),
          find-put key "message" (get "event" d) rest,
        )
        refl

  abbrev rest_of : Dict (Value Object) → Dict (Value Object)
  rest_of d = remove "logger" (remove "level" (remove "event" (remove "positional_args" d)))

  abbrev left_of : Dict (Value Object) → String → Option (Value Object)
  left_of d key =
      if str_eq "logger" key
      then none
      else if str_eq "level" key
      then none
      else if str_eq "event" key
      then none
      else if str_eq "positional_args" key
      then none
      else find key d

  find-rest_of : (key : String) (d : Dict (Value Object)) → find key (rest_of d) ≡ left_of d key
  find-rest_of key d =
      rw
        (
          find-remove key "logger",
          find-remove key "level",
          find-remove key "event",
          find-remove key "positional_args" d,
        )
        refl

  field-without :
      (d : Dict (Value Object)) (level key : String)
      → find "exception" d ≡ none
      → find key (written_of level d (rest_of d)) ≡ field level d key
  field-without d level key e =
      find-written_of level key d (rest_of d)
      ∙ rw (find-rest_of key d) (
          split_key (λ key. over level d (left_of d key) key ≡ field level d key) names
            (
              refl,
              (refl, (refl, (refl, (refl, (rw e refl, (refl, (refl, (refl, (refl, (e, tt)))))))))),
            )
            key
            (λ (a, (b, (c, (f, (g, (h, (i, (j, (k, (l, (m, _))))))))))).
              rw (a, b, c, f, g, h, i, j, k, l, m) refl))

  field-with :
      (d : Dict (Value Object)) (level key : String) (exception : Value Object)
      → find "exception" d ≡ some exception
      → find key (put "exc_info" exception (written_of level d (remove "exception" (rest_of d))))
        ≡ field level d key
  field-with d level key exception e =
      find-put key "exc_info" exception (written_of level d (remove "exception" (rest_of d)))
      ∙ rw
          (
            find-written_of level key d (remove "exception" (rest_of d)),
            find-remove key "exception" (rest_of d),
            find-rest_of key d,
          )
          (split_key
            (λ key.
              (if str_eq "exc_info" key
                then some exception
                else over level d (if str_eq "exception" key then none else left_of d key) key)
              ≡ field level d key)
            names
            (
              refl,
              (
                refl,
                (refl, (refl, (refl, (rw e refl, (refl, (refl, (refl, (refl, (refl, tt))))))))),
              ),
            )
            key
            (λ (a, (b, (c, (f, (g, (h, (i, (j, (k, (l, (m, _))))))))))).
              rw (a, b, c, f, g, h, i, j, k, l, m) refl))

  -- A record that is written as JSON has the event for its message, the level in capitals for its levelname,
  -- the name of the logger, the process and the thread, the exception for its exc_info if there is one, none
  -- of the keys event, level, logger, positional_args and exception, and under each other key what the event
  -- dict has; if the level is a text.
  pub map_event_to_json_record-field :
      (d : Dict (Value Object)) (level : String)
      → get "level" d ≡ text level
      → (written : Dict (Value Object)) × (map_event_to_json_record pid thread_name d
          ≡ some written)
        × ((key : String) → find key written ≡ field level d key)
  unfolding map_event_to_json_record update put find remove
  map_event_to_json_record-field d level e = go (find "exception" d) refl
    where
      level_found : get "level" (remove "event" (remove "positional_args" d)) ≡ text level
      level_found =
          get-remove "level" "event" (remove "positional_args" d) refl
          ∙ get-remove "level" "positional_args" d refl
          ∙ e

      logger_found :
          get "logger" (remove "level" (remove "event" (remove "positional_args" d)))
          ≡ get "logger" d
      logger_found =
          get-remove "logger" "level" (remove "event" (remove "positional_args" d)) refl
          ∙ get-remove "logger" "event" (remove "positional_args" d) refl
          ∙ get-remove "logger" "positional_args" d refl

      event_found : get "event" (remove "positional_args" d) ≡ get "event" d
      event_found = get-remove "event" "positional_args" d refl

      go :
          (exception : Option (Value Object))
          → find "exception" d ≡ exception
          → (written : Dict (Value Object)) × (map_event_to_json_record pid thread_name d
              ≡ some written)
            × ((key : String) → find key written ≡ field level d key)
      go none f = (
        written_of level d (rest_of d),
        rw
            (
              map_event_to_json_record,
              level_found,
              find-rest_of "exception" d,
              f,
              event_found,
              logger_found,
            )
            refl,
        λ key. field-without d level key f,
      )
      go (some exception) f = (
        _,
        rw
            (
              map_event_to_json_record,
              level_found,
              find-rest_of "exception" d,
              f,
              event_found,
              logger_found,
            )
            refl,
        λ key. field-with d level key exception f,
      )
