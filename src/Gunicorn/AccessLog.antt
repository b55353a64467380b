-- ===== src/Gunicorn/AccessLog.antt =====
-- common/gunicorn/processors.py: the processor that takes the fields of Gunicorn's access log into the event
-- dict, and the pattern of constants.py for the keys of extra items.
use Prim.Native.Char.{code}
use flagsmith_common.Base.{
  ℕ, Bool, false, not, String, Option, none, some, List, [], ◌∷◌, ◌==◌, str_eq, if◌then◌else◌,
}
use flagsmith_common.Base.Text.{concat, lower}
use flagsmith_common.Base.Dict.{Dict, find, put}

-- An object of Python, as far as the processor looks at it.
pub data Leaf (Object : Type 0) : Type 0 where
  null : Leaf Object
  text : String → Leaf Object
  number : ℕ → Leaf Object
  object : Object → Leaf Object

-- What Gunicorn logs: the name of the logger, and its arguments if they are a dict.
pub record LogRecord (Object : Type 0) : Type 0 where
  pub name : String
  pub args : Option (Dict (Leaf Object))

-- A value of the event dict.
pub data Value (Object : Type 0) : Type 0 where
  leaf : Leaf Object → Value Object
  table : Dict (Leaf Object) → Value Object
  log_record : LogRecord Object → Value Object

abbrev pub wsgi_extra_suffix_to_category : Dict String
wsgi_extra_suffix_to_category =
    ("i", "request_headers") ∷ ("o", "response_headers") ∷ ("e", "environ_variables") ∷ []

-- The text in front of the first "}", and the one behind it.
unfoldable pub until_brace : String → Option (String × String)
until_brace String.[] = none
until_brace (String.◌∷◌ c s) =
    let later = until_brace s in
    if code c == b'}'
    then some ("", s)
    else elim later [ none ↦ none | some (key, behind) ↦ some (String.◌∷◌ c key, behind) ]

-- [ioe]$, which also matches in front of a last line feed.
abbrev pub suffix_of : String → Option String
suffix_of behind =
    if str_eq behind "i"
    then some "i"
    else if str_eq behind "o"
    then some "o"
    else if str_eq behind "e"
    then some "e"
    else if str_eq behind "i\n"
    then some "i"
    else if str_eq behind "o\n"
    then some "o"
    else if str_eq behind "e\n"
    then some "e"
    else none

-- wsgi_extra_key_regex.match, for the groups key and suffix.
unfoldable pub match_wsgi_extra_key : String → Option (String × String)
unfolding until_brace
match_wsgi_extra_key String.[] = none
match_wsgi_extra_key (String.◌∷◌ c s) = elim (until_brace s) [
  | none ↦ none
  | some (key, behind) ↦
      if code c == b'{'
      then if str_eq key ""
        then none
        else elim (suffix_of behind) [ none ↦ none | some suffix ↦ some (key, suffix) ]
      else none
]

-- The key and the category of an extra item.
unfoldable pub key_and_category : String → Option (String × String)
unfolding match_wsgi_extra_key find
key_and_category extra_key = elim (match_wsgi_extra_key extra_key) [
  | none ↦ none
  | some (key, suffix) ↦ elim (find suffix wsgi_extra_suffix_to_category) [
    | none ↦ none
    | some category ↦ some (key, category)
  ]
]

module _ {Object : Type 0} where
  -- args.get(key, default)
  abbrev pub get : String → Leaf Object → Dict (Leaf Object) → Leaf Object
  get key default args = elim (find key args) [ none ↦ default | some value ↦ value ]

module _ {Object : Type 0} (is_true : Object → Bool) where
  -- bool(value)
  abbrev pub truthy : Leaf Object → Bool
  truthy null = false
  truthy (text s) = not (str_eq s "")
  truthy (number n) = not (n == 0)
  truthy (object o) = is_true o

module _ {Object : Type 0} (is_true : Object → Bool) (str : Leaf Object → String)
    (isoformat : String → Option String) where
  -- The url with its query, none for the TypeError of a url that is no text.
  unfoldable pub url_of : Dict (Leaf Object) → Option (Leaf Object)
  unfolding find concat
  url_of args =
      if truthy is_true (get "q" null args)
      then elim (get "U" (text "") args) [
        | null ↦ none
        | text url ↦ some (text (concat url (concat "?" (str (get "q" null args)))))
        | number _ ↦ none
        | object _ ↦ none
      ]
      else some (get "U" (text "") args)

  -- The event dict with the time, none for a time that is no text or has another form.
  unfoldable pub with_time : Dict (Leaf Object) → Dict (Value Object) → Option (Dict (Value Object))
  unfolding find put
  with_time args event_dict =
      if truthy is_true (get "t" null args)
      then elim (get "t" null args) [
        | null ↦ none
        | text t ↦ elim (isoformat t) [
          | none ↦ none
          | some time ↦ some (put "time" (leaf (text time)) event_dict)
        ]
        | number _ ↦ none
        | object _ ↦ none
      ]
      else some event_dict

  -- args.get("B") or 0
  abbrev pub size_of : Dict (Leaf Object) → Leaf Object
  size_of args = if truthy is_true (get "B" null args) then get "B" null args else number 0

  unfoldable pub with_fields :
      Dict (Leaf Object) → (url : Leaf Object) → Dict (Value Object) → Dict (Value Object)
  unfolding find put
  with_fields args url event_dict = put "response_size_in_bytes" (leaf (size_of args)) (
      put "duration_in_ms" (leaf (get "M" (number 0) args)) (
        put "user_agent" (leaf (get "a" (text "") args)) (
          put "status" (leaf (text (str (get "s" (text "") args)))) (
            put "method" (leaf (get "m" (text "") args)) (
              put "remote_ip" (leaf (get "h" (text "") args))
                (put "path" (leaf url) event_dict))))))

  -- event_dict.setdefault(category, {})[key] = extra_value, none if the category is no dict.
  unfoldable pub put_extra :
      (category key : String) → Leaf Object → Dict (Value Object) → Option (Dict (Value Object))
  unfolding find put
  put_extra category key extra_value event_dict = elim (find category event_dict) [
    | none ↦ some (put category (table ((key, extra_value) ∷ [])) event_dict)
    | some value ↦ elim value [
      | leaf _ ↦ none
      | log_record _ ↦ none
      | table entries ↦ some (put category (table (put key extra_value entries)) event_dict)
    ]
  ]

  -- One round of the loop over the extra items, and the loop.
  unfoldable pub with_extra :
      Dict (Leaf Object) → String → Dict (Value Object) → Option (Dict (Value Object))
  unfolding lower find key_and_category put_extra
  with_extra args extra_key event_dict = elim (find (lower extra_key) args) [
    | none ↦ some event_dict
    | some extra_value ↦
        if truthy is_true extra_value
        then elim (key_and_category (lower extra_key)) [
          | none ↦ some event_dict
          | some (key, category) ↦ put_extra category key extra_value event_dict
        ]
        else some event_dict
  ]

  unfoldable pub with_extras :
      Dict (Leaf Object) → List String → Dict (Value Object) → Option (Dict (Value Object))
  unfolding with_extra
  with_extras args [] event_dict = some event_dict
  with_extras args (extra_key ∷ extra_keys) event_dict =
      elim (with_extra args extra_key event_dict) [
        | none ↦ none
        | some event_dict' ↦ with_extras args extra_keys event_dict'
      ]

  -- What the processor does with the arguments of an access log.
  unfoldable pub with_args :
      List String → Dict (Leaf Object) → Dict (Value Object) → Option (Dict (Value Object))
  unfolding url_of with_time with_fields with_extras
  with_args access_log_extra_items args event_dict = elim (url_of args) [
    | none ↦ none
    | some url ↦ elim (with_time args event_dict) [
      | none ↦ none
      | some timed ↦ with_extras args access_log_extra_items (with_fields args url timed)
    ]
  ]

  -- The arguments as the event dict has them, or else the record, if they are a dict.
  unfoldable pub args_of : LogRecord Object → Dict (Value Object) → Option (Dict (Leaf Object))
  unfolding find
  args_of logged event_dict = elim (find "positional_args" event_dict) [
    | none ↦ logged.args
    | some value ↦ elim value [ table args ↦ some args | leaf _ ↦ none | log_record _ ↦ none ]
  ]

  -- The processor, where none stands for an exception.
  unfoldable pub processor : List String → Dict (Value Object) → Option (Dict (Value Object))
  unfolding find with_args args_of
  processor access_log_extra_items event_dict = elim (find "_record" event_dict) [
    | none ↦ some event_dict
    | some value ↦ elim value [
      | leaf value ↦ elim value [
        | null ↦ some event_dict
        | text _ ↦ none
        | number _ ↦ none
        | object _ ↦ none
      ]
      | table _ ↦ none
      | log_record logged ↦
          if str_eq logged.name "gunicorn.access"
          then elim (args_of logged event_dict) [
            | none ↦ some event_dict
            | some args ↦ with_args access_log_extra_items args event_dict
          ]
          else some event_dict
    ]
  ]
