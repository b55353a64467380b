-- ===== src/Gunicorn/Accesses.antt =====
-- The proofs on the fields that an access log has in the event dict.
use flagsmith_common.Base.{
  ◌≡◌, refl, sym, ap, ◌∙◌, ◌⊎◌, inl, inr, Bool, true, false, Bool-cases, String, Option, none, some,
  List, [], ◌∷◌, In, str_eq, if◌then◌else◌,
}
use flagsmith_common.Base.Text.{lower, str_eq-≡}
use flagsmith_common.Base.Sets.{member}
use flagsmith_common.Base.Dict.{Dict, find, put, find-put}
use flagsmith_common.Gunicorn.AccessLog.{
  Leaf, Value, leaf, table, log_record, key_and_category, truthy, put_extra, with_extra,
  with_extras,
}
use flagsmith_common.Gunicorn.Categories.{categories, key_and_category-member}

module _ {Object : Type 0} (is_true : Object → Bool) (str : Leaf Object → String)
    (isoformat : String → Option String) where
  -- The entries of a category.
  abbrev pub entries_at : String → Dict (Value Object) → Dict (Leaf Object)
  entries_at category d = elim (find category d) [
    | none ↦ []
    | some value ↦ elim value [ table entries ↦ entries | leaf _ ↦ [] | log_record _ ↦ [] ]
  ]

  -- A category that is not there, or a dict.
  abbrev pub HasTable : String → Dict (Value Object) → Type 0
  HasTable category d =
      (find category d ≡ none)
      ⊎ ((entries : Dict (Leaf Object)) × (find category d ≡ some (table entries)))

  put_extra_lem :
      (category key : String) (extra_value : Leaf Object) (d : Dict (Value Object))
      → HasTable category d
      → put_extra is_true str isoformat category key extra_value d
        ≡ some (put category (table (put key extra_value (entries_at category d))) d)
  unfolding put_extra put
  put_extra_lem category key extra_value d (inl e) = rw (put_extra, entries_at, e) refl
  put_extra_lem category key extra_value d (inr (entries, e)) = rw (put_extra, entries_at, e) refl

  HasTable-put :
      (category other : String) (entries : Dict (Leaf Object)) (d : Dict (Value Object))
      → HasTable category d
      → HasTable category (put other (table entries) d)
  HasTable-put category other entries d h = elim (Bool-cases (str_eq other category)) [
    | inl e ↦ inr (entries, find-put category other (table entries) d ∙ rw e refl)
    | inr e ↦ rw (find-put category other (table entries) d, e) h
  ]

  entries_at-put :
      (category other : String) (entries : Dict (Leaf Object)) (d : Dict (Value Object))
      → entries_at category (put other (table entries) d)
        ≡ (if str_eq other category then entries else entries_at category d)
  entries_at-put category other entries d = elim (Bool-cases (str_eq other category)) [
    | inl e ↦ rw (entries_at, find-put category other (table entries) d, e) refl
    | inr e ↦ rw (entries_at, find-put category other (table entries) d, e) refl
  ]

  -- Where an entry of a category comes from: the event dict, or a listed item of the arguments.
  abbrev pub IsListed :
      Dict (Leaf Object) → List String → (category key : String) → Leaf Object → Type 0
  IsListed args extra_keys category key value =
      (extra_key : String) × In extra_key extra_keys
      × (key_and_category (lower extra_key) ≡ some (key, category))
      × (find (lower extra_key) args ≡ some value)

  -- What the loop over the extra items leaves.
  pub record Extended (args : Dict (Leaf Object)) (extra_keys : List String)
      (d : Dict (Value Object)) : Type 0 where
    pub after : Dict (Value Object)
    pub returned : with_extras is_true str isoformat args extra_keys d ≡ some after
    pub kept : (key : String) → member str_eq key categories ≡ false → find key after ≡ find key d
    pub listed :
        (category key : String) (value : Leaf Object)
        → find key (entries_at category after) ≡ some value
        → (find key (entries_at category d) ≡ some value)
          ⊎ IsListed args extra_keys category key value

  -- What one round leaves.
  record Added (args : Dict (Leaf Object)) (extra_key : String) (d : Dict (Value Object))
      : Type 0 where
    after : Dict (Value Object)
    returned : with_extra is_true str isoformat args extra_key d ≡ some after
    kept : (key : String) → member str_eq key categories ≡ false → find key after ≡ find key d
    tables : (category : String) → HasTable category d → HasTable category after
    listed :
        (category key : String) (value : Leaf Object)
        → find key (entries_at category after) ≡ some value
        → (find key (entries_at category d) ≡ some value)
          ⊎ ((key_and_category (lower extra_key) ≡ some (key, category))
              × (find (lower extra_key) args ≡ some value))

  unchanged :
      (args : Dict (Leaf Object)) (extra_key : String) (d : Dict (Value Object))
      → with_extra is_true str isoformat args extra_key d ≡ some d
      → Added args extra_key d
  unchanged args extra_key d e = record {
    after = d;
    returned = e;
    kept = λ key h. refl;
    tables = λ category h. h;
    listed = λ category key value h. inl h;
  }

  differs :
      (category other : String)
      → member str_eq category categories ≡ true
      → member str_eq other categories ≡ false
      → str_eq category other ≡ false
  differs category other m n = elim (Bool-cases (str_eq category other)) [
    | inl e ↦ absurd (let k = rw (str_eq-≡ category other e) at m in cc)
    | inr e ↦ e
  ]

  came_from :
      (extra_key : String) (args : Dict (Leaf Object)) (category other key key' : String)
      (value value' : Leaf Object) (d : Dict (Value Object))
      → find key' (
          if str_eq category other
          then put key value (entries_at category d)
          else entries_at other d)
        ≡ some value'
      → key_and_category (lower extra_key) ≡ some (key, category)
      → find (lower extra_key) args ≡ some value
      → (find key' (entries_at other d) ≡ some value')
        ⊎ ((key_and_category (lower extra_key) ≡ some (key', other))
            × (find (lower extra_key) args ≡ some value'))
  came_from extra_key args category other key key' value value' d found c f =
      elim (Bool-cases (str_eq category other)) [
        | inr e ↦ inl (rw e at found)
        | inl e ↦
            let in_table : find key' (put key value (entries_at category d)) ≡ some value' =
              rw e at found in
            let at_key = sym (find-put key' key value (entries_at category d)) ∙ in_table in
            elim (Bool-cases (str_eq key key')) [
              | inr g ↦ inl (rw (sym (str_eq-≡ category other e)) (rw g at at_key))
              | inl g ↦
                  let same : some value ≡ some value' = rw g at at_key in
                  inr (
                    c
                        ∙ ap some (
                            ap (λ k. (k, category)) (str_eq-≡ key key' g)
                            ∙ ap (λ k. (key', k)) (str_eq-≡ category other e)),
                    f ∙ same,
                  )
            ]
      ]

  with_extra-Added :
      (args : Dict (Leaf Object)) (extra_key : String) (d : Dict (Value Object))
      → ((category : String) → member str_eq category categories ≡ true → HasTable category d)
      → Added args extra_key d
  unfolding with_extra
  with_extra-Added args extra_key d h = at_value (find (lower extra_key) args) refl
    where
      at_category :
          (value : Leaf Object) (c : Option (String × String))
          → find (lower extra_key) args ≡ some value
          → truthy is_true value ≡ true
          → key_and_category (lower extra_key) ≡ c
          → Added args extra_key d
      at_category value none f t c = unchanged args extra_key d (rw (with_extra, f, t, c) refl)
      at_category value (some (key, category)) f t c =
          let is_category = key_and_category-member (lower extra_key) key category c in
          let entries = put key value (entries_at category d) in
          record {
            after = put category (table entries) d;
            returned =
                rw (with_extra, f, t, c)
                  (put_extra_lem category key value d (h category is_category));
            kept = λ other m.
                rw (find-put other category (table entries) d, differs category other is_category m)
                  refl;
            tables = λ other t. HasTable-put other category entries d t;
            listed = λ other key' value' found.
                came_from extra_key args category other key key' value value' d
                  (sym (ap (λ e. find key' e) (entries_at-put other category entries d)) ∙ found) c
                  f;
          }

      at_value :
          (v : Option (Leaf Object)) → find (lower extra_key) args ≡ v → Added args extra_key d
      at_value none f = unchanged args extra_key d (rw (with_extra, f) refl)
      at_value (some value) f = elim (Bool-cases (truthy is_true value)) [
        | inl t ↦ at_category value (key_and_category (lower extra_key)) f t refl
        | inr t ↦ unchanged args extra_key d (rw (with_extra, f, t) refl)
      ]

  pub with_extras-Extended :
      (args : Dict (Leaf Object)) (extra_keys : List String) (d : Dict (Value Object))
      → ((category : String) → member str_eq category categories ≡ true → HasTable category d)
      → Extended args extra_keys d
  unfolding with_extras
  with_extras-Extended args [] d h = record {
    after = d;
    returned = refl;
    kept = λ key m. refl;
    listed = λ category key value found. inl found;
  }
  with_extras-Extended args (extra_key ∷ extra_keys) d h =
      let added = with_extra-Added args extra_key d h in
      let rest =
        with_extras-Extended args extra_keys added.after
          (λ category m. added.tables category (h category m)) in
      record {
        after = rest.after;
        returned = rw (with_extras, added.returned) rest.returned;
        kept = λ key m. rest.kept key m ∙ added.kept key m;
        listed = λ category key value found. elim (rest.listed category key value found) [
          | inr (other, i, c, f) ↦ inr (other, inr i, c, f)
          | inl before ↦ elim (added.listed category key value before) [
            | inl at_first ↦ inl at_first
            | inr (c, f) ↦ inr (extra_key, inl refl, c, f)
          ]
        ];
      }
