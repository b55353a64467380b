-- ===== src/Base/Sets.antt =====
-- Python's sets as lists, by an equality test: membership, the union, and lists without duplicates.
use flagsmith_common.Base.{
  ◌≡◌, refl, ◌∙◌, Bool, true, false, ◌||◌, List, [], ◌∷◌, ◌++◌, arith, any, if◌then◌else◌,
  Bool-cases, inl, inr,
}

module _ {A : Type 0} (eq : A → A → Bool) where
  -- x in xs
  abbrev pub member : A → List A → Bool
  member x xs = any (λ y. eq y x) xs

  abbrev pub add : A → List A → List A
  add x xs = if member x xs then xs else xs ++ x ∷ []

  -- xs | ys
  unfoldable pub union : List A → List A → List A
  union xs [] = xs
  union xs (y ∷ ys) = union (add y xs) ys

  abbrev pub IsDistinct : List A → Type 0
  IsDistinct [] = Unit
  IsDistinct (x ∷ xs) = (member x xs ≡ false) × IsDistinct xs

pub any-append :
    {A : Type 0} (p : A → Bool) (xs ys : List A) → any p (xs ++ ys) ≡ (any p xs || any p ys)
any-append p [] ys = refl
any-append p (x ∷ xs) ys = ground (arith, any-append p xs ys)

module _ {A : Type 0} (eq : A → A → Bool) where
  -- Adding an element changes the members by that element, if equal ones are members together.
  any-add :
      (p : A → Bool)
      → ((x y : A) → eq x y ≡ true → p x ≡ p y)
      → (y : A) (xs : List A) → any p (add eq y xs) ≡ (any p xs || p y)
  any-add p respects y xs = elim (Bool-cases (member eq y xs)) [
    | inl e ↦ rw e (known xs e)
    | inr e ↦ rw (e, any-append p xs (y ∷ [])) (ground arith)
  ]
    where
      known : (zs : List A) → member eq y zs ≡ true → any p zs ≡ (any p zs || p y)
      known zs e = grind (arith, present zs e)
        where
          present : (zs : List A) → member eq y zs ≡ true → p y ≡ true → any p zs ≡ true
          present [] e h = cc
          present (z ∷ zs) e h = ground (arith, respects z y, present zs)

  -- Some element of a union passes a test if one of either part does.
  pub any-union :
      (p : A → Bool)
      → ((x y : A) → eq x y ≡ true → p x ≡ p y)
      → (xs ys : List A) → any p (union eq xs ys) ≡ (any p xs || any p ys)
  unfolding union
  any-union p respects xs [] = ground arith
  any-union p respects xs (y ∷ ys) =
      any-union p respects (add eq y xs) ys ∙ ground (arith, any-add p respects y xs)

  module _ (symmetric : (x y : A) → eq x y ≡ eq y x) where
    IsDistinct-append :
        (y : A) (xs : List A)
        → member eq y xs ≡ false
        → IsDistinct eq xs
        → IsDistinct eq (xs ++ y ∷ [])
    IsDistinct-append y [] new h = (refl, tt)
    IsDistinct-append y (x ∷ xs) new h = (
      any-append (λ z. eq z x) xs (y ∷ []) ∙ ground (arith, symmetric x y, h.0, new),
      IsDistinct-append y xs (ground (arith, new)) h.1,
    )

    IsDistinct-add : (y : A) (xs : List A) → IsDistinct eq xs → IsDistinct eq (add eq y xs)
    IsDistinct-add y xs h = elim (Bool-cases (member eq y xs)) [
      | inl e ↦ rw e h
      | inr e ↦ rw e (IsDistinct-append y xs e h)
    ]

    pub IsDistinct-union : (xs ys : List A) → IsDistinct eq xs → IsDistinct eq (union eq xs ys)
    unfolding union
    IsDistinct-union xs [] h = h
    IsDistinct-union xs (y ∷ ys) h = IsDistinct-union (add eq y xs) ys (IsDistinct-add y xs h)

  -- A union begins as its first part.
  pub union-first : (x : A) (xs ys : List A) → (zs : List A) × (union eq (x ∷ xs) ys ≡ x ∷ zs)
  unfolding union
  union-first x xs [] = (xs, refl)
  union-first x xs (y ∷ ys) = elim (Bool-cases (member eq y (x ∷ xs))) [
    | inl e ↦ let (zs, f) = union-first x xs ys in (zs, rw e f)
    | inr e ↦ let (zs, f) = union-first x (xs ++ y ∷ []) ys in (zs, rw e f)
  ]
