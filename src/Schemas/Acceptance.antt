-- ===== src/Schemas/Acceptance.antt =====
-- What the validation of the typed dictionaries accepts: the parts that it is composed of.
use flagsmith_common.Base.{
  ℕ, ◌≤◌, ◌≡◌, refl, subst, ◌↔◌, inl, inr, Option, none, some, List, [], ◌∷◌, All, Bool-cases, ltb,
  arith,
}
use flagsmith_common.Validators.{
  Validated, valid, value_error, str_length, validate_dynamo_feature_state_value,
}
use flagsmith_common.Schemas.Types.{Value, DynamoFeatureValue}
use flagsmith_common.Schemas.Validation.{◌>>=◌, validate_each, validate_optional}

abbrev pub Accepts : {A : Type 0} → Validated A → Type 0
Accepts {A = A} m = (answer : A) × (m ≡ valid answer)

-- A bind accepts if its first part does and what follows.
pub >>=-valid :
    {A B : Type 0} (m : Validated A) (f : A → Validated B) (answer : B)
    → (m >>= f) ≡ valid answer
    → (first : A) × (m ≡ valid first) × (f first ≡ valid answer)
>>=-valid value_error f answer e = absurd (cc)
>>=-valid (valid first) f answer e = (first, refl, e)

pub validate_each-Accepts :
    {A B : Type 0} (validate : A → Validated B) (xs : List A)
    → Accepts (validate_each validate xs) ↔ All (λ x. Accepts (validate x)) xs
unfolding validate_each
validate_each-Accepts validate [] = (λ h. tt, λ h. ([], refl))
validate_each-Accepts validate (x ∷ xs) =
    let rest = validate_each-Accepts validate xs in
    (
      λ (answer, e).
          let (y, f, g) = >>=-valid (validate x) _ answer e in
          let (ys, f', g') = >>=-valid (validate_each validate xs) _ answer g in
          ((y, f), rest.0 (ys, f')),
      λ ((y, f), h). let (ys, f') = rest.1 h in (y ∷ ys, rw (f, f') refl),
    )

-- What holds of the value of a key, if it is there.
abbrev pub IfGiven : {A : Type 0} → (A → Type 0) → Option A → Type 0
IfGiven P none = Unit
IfGiven P (some x) = P x

pub IfGiven-map :
    {A : Type 0} {P Q : A → Type 0}
    → ((x : A) → P x → Q x)
    → (x : Option A) → IfGiven P x
    → IfGiven Q x
IfGiven-map f none h = tt
IfGiven-map f (some x) h = f x h

pub validate_optional-Accepts :
    {A B : Type 0} (validate : A → Validated B) (x : Option A)
    → Accepts (validate_optional validate x) ↔ IfGiven (λ x. Accepts (validate x)) x
validate_optional-Accepts validate none = (λ h. tt, λ h. (none, refl))
validate_optional-Accepts validate (some x) = (
  λ (answer, e). let (y, f, g) = >>=-valid (validate x) _ answer e in (y, f),
  λ (y, f). (some y, rw f refl),
)

-- A text that is not too long, or another value.
abbrev pub IsShort : Value → Type 0
IsShort (Value.text s) = str_length s ≤ 20_000
IsShort _ = Unit

pub validate_value-Accepts :
    (value : Value) → Accepts (validate_dynamo_feature_state_value value) ↔ IsShort value
unfolding validate_dynamo_feature_state_value
validate_value-Accepts Value.null = (λ h. tt, λ h. (_, refl))
validate_value-Accepts (Value.boolean b) = (λ h. tt, λ h. (_, refl))
validate_value-Accepts (Value.integer n s) = (λ h. tt, λ h. (_, refl))
validate_value-Accepts (Value.object s) = (λ h. tt, λ h. (_, refl))
validate_value-Accepts (Value.text s) = elim (Bool-cases (ltb 20_000 (str_length s))) [
  | inl e ↦ (λ (answer, f). absurd (let k = rw e at f in cc), λ h. absurd (ground arith))
  | inr e ↦ (λ (answer, f). ground arith, λ h. (DynamoFeatureValue.text s, rw e refl))
]

pub bind-parts :
    {A B : Type 0} (m : Validated A) (f : A → Validated B)
    → Accepts (m >>= f)
    → (first : A) × (m ≡ valid first) × Accepts (f first)
bind-parts m f (answer, e) = let (first, g, h) = >>=-valid m f answer e in (first, g, (answer, h))

pub bind-Accepts :
    {A B : Type 0} (m : Validated A) (f : A → Validated B)
    → Accepts m
    → ((first : A) → m ≡ valid first → Accepts (f first))
    → Accepts (m >>= f)
bind-Accepts value_error f (first, e) h = absurd (cc)
bind-Accepts (valid first) f a h = h first refl

pub valid-injective : {A : Type 0} {x y : A} → valid x ≡ valid y → x ≡ y
valid-injective e = cc

-- The validation keeps a number that is read off each element.
pub data SameBy {A B : Type 0} (f : A → ℕ) (g : B → ℕ) : List A → List B → Type 0 where
  same_nil : SameBy f g [] []
  same_cons :
      {x : A} {y : B} {xs : List A} {ys : List B}
      → f x ≡ g y
      → SameBy f g xs ys
      → SameBy f g (x ∷ xs) (y ∷ ys)

pub validate_each-SameBy :
    {A B : Type 0} (f : A → ℕ) (g : B → ℕ) (validate : A → Validated B)
    → ((x : A) (y : B) → validate x ≡ valid y → f x ≡ g y)
    → (xs : List A) (ys : List B) → validate_each validate xs ≡ valid ys
    → SameBy f g xs ys
unfolding validate_each
validate_each-SameBy f g validate h [] [] e = same_nil
validate_each-SameBy f g validate h [] (y ∷ ys) e = absurd (cc)
validate_each-SameBy f g validate h (x ∷ xs) ys e =
    let (y, p, r) = >>=-valid (validate x) _ ys e in
    let (ys', p', r') = >>=-valid (validate_each validate xs) _ ys r in
    subst (SameBy f g (x ∷ xs)) (valid-injective r')
      (same_cons (h x y p) (validate_each-SameBy f g validate h xs ys' p'))
