-- ===== src/Otel/Attributes.antt =====
-- The proofs on the attributes of a log record.
use flagsmith_common.Base.{
  ◌≡◌, refl, sym, ap, ◌∙◌, Bool, true, false, String, Option, none, some, List, [], ◌∷◌, str_eq,
  if◌then◌else◌, Bool-cases, inl, inr, eq_iff,
}
use flagsmith_common.Base.Text.{replace_dunder}
use flagsmith_common.Base.Sets.{member, IsDistinct}
use flagsmith_common.Base.Dict.{Dict, find, put, find-put}
use flagsmith_common.Otel.Records.{
  AnyValue, text, Value, plain, object, reserved_keys, map_items, map_event_dict_to_otel_attributes,
  copy_baggage, event_name_of, processor,
}

abbrev pub keys : {A : Type 0} → Dict A → List String
keys [] = []
keys ((key, value) ∷ d) = key ∷ keys d

find-absent :
    {A : Type 0} (key : String) (d : Dict A)
    → member str_eq key (keys d) ≡ false
    → find key d ≡ none
unfolding find
find-absent key [] h = refl
find-absent key ((other, value) ∷ d) h = elim (Bool-cases (str_eq other key)) [
  | inl e ↦ let k = rw e at h in absurd (cc)
  | inr e ↦ rw e (find-absent key d (rw e at h))
]

module _ {Number : Type 0} where
  -- An entry of the baggage stands before what was there.
  abbrev pub or_baggage : Option String → Option (AnyValue Number) → Option (AnyValue Number)
  or_baggage none attribute = attribute
  or_baggage (some value) attribute = some (text value)

  find-copy_baggage :
      (key : String) (baggage : Dict String) (attributes : Dict (AnyValue Number))
      → IsDistinct str_eq (keys baggage)
      → find key (copy_baggage baggage attributes)
        ≡ or_baggage (find key baggage) (find key attributes)
  unfolding copy_baggage find
  find-copy_baggage key [] attributes h = refl
  find-copy_baggage key ((other, value) ∷ baggage) attributes h =
      find-copy_baggage key baggage (put other (text value) attributes) h.1
      ∙ ap (or_baggage (find key baggage)) (find-put key other (text value) attributes)
      ∙ elim (Bool-cases (str_eq other key)) [
        | inl e ↦ rw (e, absent_of e) refl
        | inr e ↦ rw e refl
      ]
    where
      absent_of : str_eq other key ≡ true → find key baggage ≡ none
      absent_of e =
          find-absent key baggage
            (ap (λ k. member str_eq k (keys baggage)) (sym ((eq_iff other key).0 e)) ∙ h.0)

abbrev pub or_else : {A : Type 0} → Option A → Option A → Option A
or_else none other = other
or_else (some value) other = some value

or_else-if :
    {A : Type 0} (a x : Option A) (b : Bool) (v : A)
    → or_else a (if b then some v else x) ≡ or_else (or_else a (if b then some v else none)) x
or_else-if none x true v = refl
or_else-if none x false v = refl
or_else-if (some y) x b v = refl

or_else-none : {A : Type 0} (a : Option A) → or_else a none ≡ a
or_else-none none = refl
or_else-none (some x) = refl

module _ {Number Object : Type 0} (dumps : Object → String) where
  -- The value that an item gives to an attribute: its key is not reserved, and is the attribute's with dots
  -- for "__"; a value that is no text, Boolean or number is given as JSON.
  abbrev pub given_by : String → String × Value Number Object → Option (AnyValue Number)
  given_by attribute (key, value) =
      if member str_eq key reserved_keys
      then none
      else if str_eq (replace_dunder key) attribute
      then some (elim value [ plain v ↦ v | object o ↦ text (dumps o) ])
      else none

  -- The value that the last item of the event dict gives that gives one.
  unfoldable pub last_given : String → Dict (Value Number Object) → Option (AnyValue Number)
  last_given attribute [] = none
  last_given attribute (item ∷ items) =
      or_else (last_given attribute items) (given_by attribute item)

  find-map_items :
      (attribute : String) (items : Dict (Value Number Object))
      (attributes : Dict (AnyValue Number))
      → find attribute (map_items dumps items attributes)
        ≡ or_else (last_given attribute items) (find attribute attributes)
  unfolding map_items last_given
  find-map_items attribute [] attributes = refl
  find-map_items attribute ((key, value) ∷ items) attributes =
      elim (Bool-cases (member str_eq key reserved_keys)) [
        | inl e ↦
            rw (e, find-map_items attribute items attributes)
              (nothing (last_given attribute items) (find attribute attributes))
        | inr e ↦
            rw
              (
                e,
                find-map_items attribute items (put (replace_dunder key) (mapped value) attributes),
                find-put attribute (replace_dunder key) (mapped value) attributes,
              )
              (or_else-if (last_given attribute items) (find attribute attributes)
                (str_eq (replace_dunder key) attribute) (mapped value))
      ]
    where
      mapped : Value Number Object → AnyValue Number
      mapped value = elim value [ plain v ↦ v | object o ↦ text (dumps o) ]

      nothing : {A : Type 0} (a x : Option A) → or_else a x ≡ or_else (or_else a none) x
      nothing none x = refl
      nothing (some y) x = refl

module _ {Number Object : Type 0} (dumps : Object → String) (underscore : String → String) where
  -- The attribute flagsmith.event of a log record is always its event name; another attribute is the entry
  -- of the baggage of this key, if there is one, and else the value of the last item of the event dict
  -- whose key is not reserved and is, with dots for "__", this key, if there is one; values that are no
  -- texts, Booleans or numbers are given as JSON. The event dict is passed on as it is.
  pub processor-attributes :
      (baggage : Dict String) (is_recording : Bool) (method_name : String)
      (event_dict : Dict (Value Number Object))
      → IsDistinct str_eq (keys baggage)
      → (key : String)
      → let (emitted, passed_on) =
          processor dumps underscore baggage is_recording method_name event_dict in
        (find key emitted.log_record.attributes ≡ (
          if str_eq "flagsmith.event" key
          then some (text emitted.log_record.event_name)
          else or_baggage (find key baggage) (last_given dumps key event_dict)))
        × (passed_on ≡ event_dict)
  unfolding processor
  processor-attributes baggage is_recording method_name event_dict h key = (
    find-put key "flagsmith.event" _ _
        ∙ ap
            (λ found.
              if str_eq "flagsmith.event" key
              then some (text (event_name_of underscore event_dict))
              else found)
            (find-copy_baggage key baggage (map_event_dict_to_otel_attributes dumps event_dict) h
              ∙ ap (or_baggage (find key baggage))
                  (find-map_items dumps key event_dict [] ∙ or_else-none _)),
    refl,
  )
