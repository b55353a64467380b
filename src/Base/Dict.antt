-- ===== src/Base/Dict.antt =====
-- Python's dictionaries with texts as keys, as lists in the order of insertion.
use flagsmith_common.Base.{
  ◌≡◌, refl, Bool-cases, inl, inr, eq_iff, sym, ap, subst, All, ◌∙◌, false, String, Option, none,
  some, List, [], ◌∷◌, str_eq, if◌then◌else◌,
}
use flagsmith_common.Base.Text.{str_eq-sym, str_eq-≡}

abbrev pub Dict : Type 0 → Type 0
Dict A = List (String × A)

module _ {A : Type 0} where
  -- d.get(key)
  unfoldable pub find : String → Dict A → Option A
  find key [] = none
  find key ((other, value) ∷ rest) = if str_eq other key then some value else find key rest

  -- d[key] = value
  unfoldable pub put : String → A → Dict A → Dict A
  put key value [] = (key, value) ∷ []
  put key value ((other, old) ∷ rest) =
      if str_eq other key then (other, value) ∷ rest else (other, old) ∷ put key value rest

  -- d.setdefault(key, value)
  abbrev pub put_default : String → A → Dict A → Dict A
  put_default key value d = elim (find key d) [ none ↦ put key value d | some _ ↦ d ]

  -- for key, value in defaults.items(): d.setdefault(key, value)
  unfoldable pub put_defaults : Dict A → Dict A → Dict A
  unfolding find put
  put_defaults [] d = d
  put_defaults ((key, value) ∷ defaults) d = put_defaults defaults (put_default key value d)

  -- What is found after `d[key] = value`.
  pub find-put :
      (key name : String) (value : A) (d : Dict A)
      → find key (put name value d) ≡ (if str_eq name key then some value else find key d)
  unfolding find put
  find-put key name value [] = refl
  find-put key name value ((other, old) ∷ d) = elim (Bool-cases (str_eq other name)) [
    | inl e ↦
        rw (e, (eq_iff other name).0 e)
          (elim (Bool-cases (str_eq name key)) [ inl f ↦ rw f refl | inr f ↦ rw f refl ])
    | inr e ↦
        rw (e, find-put key name value d)
          (elim (Bool-cases (str_eq other key)) [
            | inl f ↦
                rw
                  (
                    f,
                    str_eq-sym name key
                        ∙ ap (λ x. str_eq x name) (sym ((eq_iff other key).0 f))
                        ∙ e,
                  )
                  refl
            | inr f ↦ rw f refl
          ])
  ]

module _ {A : Type 0} where
  -- d.pop(key, None), for what it leaves.
  unfoldable pub remove : String → Dict A → Dict A
  remove key [] = []
  remove key ((other, value) ∷ d) =
      let rest = remove key d in if str_eq other key then rest else (other, value) ∷ rest

  -- d.update(other)
  unfoldable pub update : Dict A → Dict A → Dict A
  unfolding put
  update d [] = d
  update d ((key, value) ∷ other) = update (put key value d) other

  -- What is found after a key is removed.
  pub find-remove :
      (key name : String) (d : Dict A)
      → find key (remove name d) ≡ (if str_eq name key then none else find key d)
  unfolding find remove
  find-remove key name [] = elim (Bool-cases (str_eq name key)) [
    | inl f ↦ rw f refl
    | inr f ↦ rw f refl
  ]
  find-remove key name ((other, value) ∷ d) = elim (Bool-cases (str_eq other name)) [
    | inl e ↦
        rw (e, find-remove key name d, (eq_iff other name).0 e)
          (elim (Bool-cases (str_eq name key)) [ inl f ↦ rw f refl | inr f ↦ rw f refl ])
    | inr e ↦ elim (Bool-cases (str_eq other key)) [
      | inl f ↦
          let d : str_eq name key ≡ false =
            str_eq-sym name key ∙ ap (λ x. str_eq x name) (sym ((eq_iff other key).0 f)) ∙ e in
          rw (e, f, d) refl
      | inr f ↦ rw (e, f, find-remove key name d) refl
    ]
  ]

-- What is found is an entry.
pub find-All :
    {A : Type 0} (P : String × A → Type 0) (name : String) (value : A) (d : Dict A)
    → All P d
    → find name d ≡ some value
    → P (name, value)
unfolding find
find-All P name value [] h e = absurd (cc)
find-All P name value ((other, old) ∷ d) h e = elim (Bool-cases (str_eq other name)) [
  | inl f ↦
      let same : some old ≡ some value = rw f at e in
      subst P
        (ap (λ x. (x, old)) (str_eq-≡ other name f)
          ∙ ap (λ x. (name, x)) (let k : old ≡ value = cc in k))
        h.0
  | inr f ↦ find-All P name value d h.1 (rw f at e)
]
