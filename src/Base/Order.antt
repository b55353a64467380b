-- ===== src/Base/Order.antt =====
-- The meaning of `ORDER BY` over a list of columns: lexicographic keys and a stable sort.
use flagsmith_common.Base.{
  ℕ, zero, suc, ◌≡◌, refl, ap, ◌∙◌, Bool, true, false, ◌⊎◌, inl, inr, List, [], ◌∷◌, Option, none,
  some, arith, ltb, if◌then◌else◌, Bool-cases, All, In, take, drop, All-drop, length, any,
}

-- A nullable column in ascending order: PostgreSQL puts NULL last unless `NULLS FIRST` is said.
abbrev pub nulls_last : Option ℕ → List ℕ
nulls_last none = 1 ∷ 0 ∷ []
nulls_last (some n) = 0 ∷ n ∷ []

abbrev pub nulls_first : Option ℕ → List ℕ
nulls_first none = 0 ∷ 0 ∷ []
nulls_first (some n) = 1 ∷ n ∷ []

unfoldable pub lex : List ℕ → List ℕ → Bool
lex [] ys = true
lex (x ∷ xs) [] = false
lex (x ∷ xs) (y ∷ ys) =
    let rest = lex xs ys in if ltb x y then true else if ltb y x then false else rest

pub lex-total : (xs ys : List ℕ) → lex xs ys ≡ false → lex ys xs ≡ true
unfolding lex
lex-total [] ys h = ground arith
lex-total (x ∷ xs) [] h = refl
lex-total (x ∷ xs) (y ∷ ys) h = ground (arith, lex-total xs ys)

pub lex_trans : (xs ys zs : List ℕ) → lex xs ys ≡ true → lex ys zs ≡ true → lex xs zs ≡ true
unfolding lex
lex_trans [] ys zs h k = refl
lex_trans (x ∷ xs) [] zs h k = ground arith
lex_trans (x ∷ xs) (y ∷ ys) [] h k = ground arith
lex_trans (x ∷ xs) (y ∷ ys) (z ∷ zs) h k = ground (arith, lex_trans xs ys zs)

module _ {ℓ} {A : Type ℓ} (key : A → List ℕ) where
  pub insert_by : A → List A → List A
  insert_by a [] = a ∷ []
  insert_by a (x ∷ xs) =
      let rest = insert_by a xs in if lex (key a) (key x) then a ∷ x ∷ xs else x ∷ rest

  unfoldable pub order_by : List A → List A
  unfolding insert_by
  order_by [] = []
  order_by (x ∷ xs) = insert_by x (order_by xs)

  -- Every member comes no later than every member behind it.
  abbrev pub IsOrdered : List A → Type ℓ
  IsOrdered [] = Unit
  IsOrdered (x ∷ xs) = All (λ y. lex (key x) (key y) ≡ true) xs × IsOrdered xs

module _ {A : Type 0} (key : A → List ℕ) where
  -- `a` comes no later than any member.
  abbrev pub AllBehind : A → List A → Type 0
  AllBehind a xs = All (λ y. lex (key a) (key y) ≡ true) xs

  AllBehind-trans :
      (a x : A) (xs : List A) → lex (key a) (key x) ≡ true → AllBehind x xs → AllBehind a xs
  AllBehind-trans a x [] e h = tt
  AllBehind-trans a x (y ∷ ys) e h =
      (lex_trans (key a) (key x) (key y) e h.0, AllBehind-trans a x ys e h.1)

  pub All-insert_by {κ} :
      (P : A → Type κ) (a : A) (xs : List A) → P a → All P xs → All P (insert_by key a xs)
  unfolding insert_by
  All-insert_by P a [] p h = (p, tt)
  All-insert_by P a (x ∷ xs) p h = elim (Bool-cases (lex (key a) (key x))) [
    | inl e ↦ rw e (p, h)
    | inr e ↦ rw e (h.0, All-insert_by P a xs p h.1)
  ]

  insert_by-IsOrdered :
      (a : A) (xs : List A) → IsOrdered key xs → IsOrdered key (insert_by key a xs)
  unfolding insert_by
  insert_by-IsOrdered a [] h = (tt, tt)
  insert_by-IsOrdered a (x ∷ xs) h = elim (Bool-cases (lex (key a) (key x))) [
    | inl e ↦ rw e ((e, AllBehind-trans a x xs e h.0), h)
    | inr e ↦ rw e (
      All-insert_by (λ y. lex (key x) (key y) ≡ true) a xs (lex-total (key a) (key x) e) h.0,
      insert_by-IsOrdered a xs h.1,
    )
  ]

  pub order_by-IsOrdered : (xs : List A) → IsOrdered key (order_by key xs)
  unfolding order_by
  order_by-IsOrdered [] = tt
  order_by-IsOrdered (x ∷ xs) = insert_by-IsOrdered x (order_by key xs) (order_by-IsOrdered xs)

  pub All-order_by {κ} : (P : A → Type κ) (xs : List A) → All P xs → All P (order_by key xs)
  unfolding order_by
  All-order_by P [] h = tt
  All-order_by P (x ∷ xs) h = All-insert_by P x (order_by key xs) h.0 (All-order_by P xs h.1)

  In-insert_by : (a b : A) (xs : List A) → (b ≡ a) ⊎ In b xs → In b (insert_by key a xs)
  unfolding insert_by
  In-insert_by a b [] i = i
  In-insert_by a b (x ∷ xs) i = elim (Bool-cases (lex (key a) (key x))) [
    | inl e ↦ rw e i
    | inr e ↦ rw e (elim i [
      | inl p ↦ inr (In-insert_by a b xs (inl p))
      | inr (inl p) ↦ inl p
      | inr (inr p) ↦ inr (In-insert_by a b xs (inr p))
    ])
  ]

  pub In-order_by : (b : A) (xs : List A) → In b xs → In b (order_by key xs)
  unfolding order_by
  In-order_by b [] i = i
  In-order_by b (x ∷ xs) (inl e) = In-insert_by x b (order_by key xs) (inl e)
  In-order_by b (x ∷ xs) (inr i) = In-insert_by x b (order_by key xs) (inr (In-order_by b xs i))

  -- Whatever `LIMIT n` leaves out comes no earlier than whatever it lets through.
  pub take-before_drop :
      (n : ℕ) (xs : List A) → IsOrdered key xs → All (λ x. AllBehind x (drop n xs)) (take n xs)
  take-before_drop zero xs h = tt
  take-before_drop (suc n) [] h = tt
  take-before_drop (suc n) (x ∷ xs) h =
      (All-drop (λ y. lex (key x) (key y) ≡ true) n xs h.0, take-before_drop n xs h.1)

  length-insert_by : (a : A) (xs : List A) → length (insert_by key a xs) ≡ suc (length xs)
  unfolding insert_by
  length-insert_by a [] = refl
  length-insert_by a (x ∷ xs) = ground (arith, length-insert_by a xs)

  pub length-order_by : (xs : List A) → length (order_by key xs) ≡ length xs
  unfolding order_by
  length-order_by [] = refl
  length-order_by (x ∷ xs) = length-insert_by x (order_by key xs) ∙ ap suc (length-order_by xs)

  insert_by-first : (a : A) (xs : List A) → AllBehind a xs → insert_by key a xs ≡ a ∷ xs
  unfolding insert_by
  insert_by-first a [] h = refl
  insert_by-first a (x ∷ xs) h = rw h.0 refl

  -- A list in order is left as it is.
  pub order_by_ordered : (xs : List A) → IsOrdered key xs → order_by key xs ≡ xs
  unfolding order_by
  order_by_ordered [] h = refl
  order_by_ordered (x ∷ xs) h =
      ap (λ l. insert_by key x l) (order_by_ordered xs h.1) ∙ insert_by-first x xs h.0

  any-insert_by : (p : A → Bool) (a : A) (xs : List A) → any p (insert_by key a xs) ≡ any p (a ∷ xs)
  unfolding insert_by
  any-insert_by p a [] = refl
  any-insert_by p a (x ∷ xs) = ground (arith, any-insert_by p a xs)

  pub any-order_by : (p : A → Bool) (xs : List A) → any p (order_by key xs) ≡ any p xs
  unfolding order_by
  any-order_by p [] = refl
  any-order_by p (x ∷ xs) = any-insert_by p x (order_by key xs) ∙ ground (arith, any-order_by p xs)

  -- No two members are related.
  abbrev pub AllApart {κ} : (A → A → Type κ) → List A → Type κ
  AllApart R [] = Unit
  AllApart R (x ∷ xs) = All (R x) xs × AllApart R xs

  AllApart-insert_by {κ} :
      (R : A → A → Type κ)
      → ((x y : A) → R x y → R y x)
      → (a : A) (xs : List A) → All (R a) xs
      → AllApart R xs
      → AllApart R (insert_by key a xs)
  unfolding insert_by
  AllApart-insert_by R flip a [] h k = (tt, tt)
  AllApart-insert_by R flip a (x ∷ xs) h k = elim (Bool-cases (lex (key a) (key x))) [
    | inl e ↦ rw e (h, k)
    | inr e ↦
        rw e (All-insert_by (R x) a xs (flip a x h.0) k.0, AllApart-insert_by R flip a xs h.1 k.1)
  ]

  pub AllApart-order_by {κ} :
      (R : A → A → Type κ)
      → ((x y : A) → R x y → R y x)
      → (xs : List A) → AllApart R xs
      → AllApart R (order_by key xs)
  unfolding order_by
  AllApart-order_by R flip [] h = tt
  AllApart-order_by R flip (x ∷ xs) h =
      AllApart-insert_by R flip x (order_by key xs) (All-order_by (R x) xs h.0)
        (AllApart-order_by R flip xs h.1)
