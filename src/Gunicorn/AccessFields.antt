-- ===== src/Gunicorn/AccessFields.antt =====
-- The proofs on the whole event dict of an access log.
use flagsmith_common.Base.{
  ◌≡◌, refl, ◌∙◌, subst, ◌⊎◌, inl, inr, Bool, true, false, Bool-cases, String, Option, none, some,
  List, [], ◌∷◌, All, str_eq, if◌then◌else◌,
}
use flagsmith_common.Base.Text.{concat, str_eq-≡}
use flagsmith_common.Base.Sets.{member}
use flagsmith_common.Base.Dict.{Dict, find, put, find-put}
use flagsmith_common.Gunicorn.AccessLog.{
  Leaf, null, text, number, LogRecord, Value, leaf, log_record, truthy, get, url_of, with_time,
  size_of, with_fields, with_args, args_of, processor,
}
use flagsmith_common.Gunicorn.Categories.{categories}
use flagsmith_common.Gunicorn.Accesses.{entries_at, HasTable, IsListed, with_extras-Extended}

-- What holds of the three categories holds of each member.
of_category :
    (P : String → Type 0) (names : List String)
    → All P names
    → (category : String) → member str_eq category names ≡ true
    → P category
of_category P [] h category m = absurd (cc)
of_category P (name ∷ names) h category m = elim (Bool-cases (str_eq name category)) [
  | inl e ↦ subst P (str_eq-≡ name category e) h.0
  | inr e ↦ of_category P names h.1 category (rw e at m)
]

module _ {Object : Type 0} (is_true : Object → Bool) (str : Leaf Object → String)
    (isoformat : String → Option String) where
  -- The time of the arguments: none if it is empty or missing.
  pub data HasTime (args : Dict (Leaf Object)) : Option String → Type 0 where
    no_time : truthy is_true (get "t" null args) ≡ false → HasTime args none
    at_time :
        (t time : String)
        → truthy is_true (text t) ≡ true
        → get "t" null args ≡ text t
        → isoformat t ≡ some time
        → HasTime args (some time)

  -- The path: the url, with the query if there is one.
  abbrev pub path_of : Dict (Leaf Object) → String → Leaf Object
  path_of args url =
      if truthy is_true (get "q" null args)
      then text (concat url (concat "?" (str (get "q" null args))))
      else text url

  -- What the event dict has under a key that is no category.
  abbrev pub field :
      Dict (Leaf Object)
      → String
      → Option String
      → Dict (Value Object)
      → String
      → Option (Value Object)
  field args url time d key =
      if str_eq "response_size_in_bytes" key
      then some (leaf (size_of is_true str isoformat args))
      else if str_eq "duration_in_ms" key
      then some (leaf (get "M" (number 0) args))
      else if str_eq "user_agent" key
      then some (leaf (get "a" (text "") args))
      else if str_eq "status" key
      then some (leaf (text (str (get "s" (text "") args))))
      else if str_eq "method" key
      then some (leaf (get "m" (text "") args))
      else if str_eq "remote_ip" key
      then some (leaf (get "h" (text "") args))
      else if str_eq "path" key
      then some (leaf (path_of args url))
      else if str_eq "time" key
      then elim time [ none ↦ find "time" d | some t ↦ some (leaf (text t)) ]
      else find key d

  url_of_lem :
      (args : Dict (Leaf Object)) (url : String)
      → get "U" (text "") args ≡ text url
      → url_of is_true str isoformat args ≡ some (path_of args url)
  unfolding url_of
  url_of_lem args url e = elim (Bool-cases (truthy is_true (get "q" null args))) [
    | inl q ↦ rw (url_of, q, e) refl
    | inr q ↦ rw (url_of, q, e) refl
  ]

  -- The event dict with its time.
  abbrev timed_of : Option String → Dict (Value Object) → Dict (Value Object)
  timed_of none d = d
  timed_of (some time) d = put "time" (leaf (text time)) d

  with_time_lem :
      (args : Dict (Leaf Object)) (time : Option String) (d : Dict (Value Object))
      → HasTime args time
      → with_time is_true str isoformat args d ≡ some (timed_of time d)
  unfolding with_time
  with_time_lem args none d (no_time e) = rw (with_time, e) refl
  with_time_lem args (some _) d (at_time t time e f g) = rw (with_time, f, e, g) refl

  find-timed_of :
      (time : Option String) (d : Dict (Value Object)) (key : String)
      → find key (timed_of time d) ≡ (
          if str_eq "time" key
          then elim time [ none ↦ find "time" d | some t ↦ some (leaf (text t)) ]
          else find key d)
  find-timed_of none d key = elim (Bool-cases (str_eq "time" key)) [
    | inl e ↦ rw (e, str_eq-≡ "time" key e) refl
    | inr e ↦ rw e refl
  ]
  find-timed_of (some time) d key = find-put {A = Value Object} key "time" (leaf (text time)) d

  find-with_fields :
      (args : Dict (Leaf Object)) (url : String) (time : Option String) (d : Dict (Value Object))
      (key : String)
      → find key (with_fields is_true str isoformat args (path_of args url) (timed_of time d))
        ≡ field args url time d key
  unfolding with_fields
  find-with_fields args url time d key =
      rw
        (
          with_fields,
          find-put {A = Value Object} key "response_size_in_bytes"
              (leaf (size_of is_true str isoformat args)),
          find-put {A = Value Object} key "duration_in_ms" (leaf (get "M" (number 0) args)),
          find-put {A = Value Object} key "user_agent" (leaf (get "a" (text "") args)),
          find-put {A = Value Object} key "status" (leaf (text (str (get "s" (text "") args)))),
          find-put {A = Value Object} key "method" (leaf (get "m" (text "") args)),
          find-put {A = Value Object} key "remote_ip" (leaf (get "h" (text "") args)),
          find-put {A = Value Object} key "path" (leaf (path_of args url)),
          find-timed_of time d key,
        )
        refl

  find-category :
      (args : Dict (Leaf Object)) (url : String) (time : Option String) (d : Dict (Value Object))
      (category : String)
      → member str_eq category categories ≡ true
      → find category (with_fields is_true str isoformat args (path_of args url) (timed_of time d))
        ≡ find category d
  find-category args url time d category m =
      find-with_fields args url time d category
      ∙ of_category (λ key. field args url time d key ≡ find key d) categories
          (refl, (refl, (refl, tt))) category m

  -- The record of an access log, with a url, and a time of the known form or none, is never refused if the
  -- categories of extra items are free or dicts. Path, time, remote_ip, method, status, user_agent, duration
  -- and size are then those of the arguments, each other key has what it had, and a category has no entry
  -- that it had not before, but for the extra items that are listed and match the pattern.
  pub processor-field :
      (items : List String) (logged : LogRecord Object) (args : Dict (Leaf Object)) (url : String)
      (time : Option String) (d : Dict (Value Object))
      → find "_record" d ≡ some (log_record logged)
      → str_eq logged.name "gunicorn.access" ≡ true
      → args_of is_true str isoformat logged d ≡ some args
      → get "U" (text "") args ≡ text url
      → HasTime args time
      → All (λ category. HasTable is_true str isoformat category d) categories
      → (after : Dict (Value Object)) × (processor is_true str isoformat items d ≡ some after)
        × ((key : String)
            → member str_eq key categories ≡ false
            → find key after ≡ field args url time d key)
        × ((category key : String) (value : Leaf Object)
            → member str_eq category categories ≡ true
            → find key (entries_at is_true str isoformat category after) ≡ some value
            → (find key (entries_at is_true str isoformat category d) ≡ some value)
              ⊎ IsListed is_true str isoformat args items category key value)
  unfolding processor with_args
  processor-field items logged args url time d e n a u t h =
      let ready : Dict (Value Object) =
        with_fields is_true str isoformat args (path_of args url) (timed_of time d) in
      let extended = with_extras-Extended is_true str isoformat args items ready (λ category m.
        rw (find-category args url time d category m) (
          of_category (λ category. HasTable is_true str isoformat category d) categories h category
            m)) in
      (
        extended.after,
        rw (processor, e, n, a, with_args, url_of_lem args url u, with_time_lem args time d t)
            extended.returned,
        λ key m. extended.kept key m ∙ find-with_fields args url time d key,
        λ category key value m found. elim (extended.listed category key value found) [
          | inr listed ↦ inr listed
          | inl before ↦ inl (rw (entries_at, find-category args url time d category m) at before)
        ],
      )
