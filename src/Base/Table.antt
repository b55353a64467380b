-- ===== src/Base/Table.antt =====
-- A database table: rows under their primary keys, with the statements that the program issues.
use flagsmith_common.Base.{
  ℕ, ◌<◌, ◌≡◌, refl, sym, ap, ◌∙◌, Bool, true, false, not, inl, inr, List, [], ◌∷◌, ◌++◌, Option,
  none, some, arith, ◌==◌, ==_iff, if◌then◌else◌, All, filter, Bool-cases,
}
use mathlib.Core.Bool.{false≢true}
use mathlib.Core.Option

abbrev pub Table : Type 0 → Type 0
Table A = List (ℕ × A)

abbrev pub has_key : ℕ → List ℕ → Bool
has_key k [] = false
has_key k (j ∷ ks) = if j == k then true else has_key k ks

module _ {A : Type 0} where
  -- The row with this key.
  unfoldable pub get : ℕ → Table A → Option A
  get k [] = none
  get k ((j, v) ∷ rows) = if j == k then some v else get k rows

  -- UPDATE ... WHERE id = k
  unfoldable pub update : ℕ → (A → A) → Table A → Table A
  update k f [] = []
  update k f ((j, v) ∷ rows) = (j, if j == k then f v else v) ∷ update k f rows

  -- INSERT, behind the rows that are there
  unfoldable pub insert : ℕ → A → Table A → Table A
  insert k v rows = rows ++ (k, v) ∷ []

  -- DELETE ... WHERE id = k
  unfoldable pub delete : ℕ → Table A → Table A
  unfolding filter
  delete k rows = filter (λ row. not (row.0 == k)) rows

  abbrev pub keys : Table A → List ℕ
  keys [] = []
  keys ((k, v) ∷ rows) = k ∷ keys rows

  -- Every key lies below the next number of the sequence.
  abbrev pub AllBelow : ℕ → Table A → Type 0
  AllBelow n rows = All (λ row. row.0 < n) rows

  pub get-update :
      (k j : ℕ) (f : A → A) (rows : Table A)
      → get j (update k f rows) ≡ (if k == j then Option.map f (get j rows) else get j rows)
  unfolding get update
  get-update k j f [] = ground arith
  get-update k j f ((i, v) ∷ rows) = ground (arith, get-update k j f rows)

  pub keys-update : (k : ℕ) (f : A → A) (rows : Table A) → keys (update k f rows) ≡ keys rows
  unfolding update
  keys-update k f [] = refl
  keys-update k f ((i, v) ∷ rows) = ap (λ l. i ∷ l) (keys-update k f rows)

  pub All-update {κ} :
      (P : ℕ × A → Type κ) (k : ℕ) (f : A → A)
      → ((v : A) → P (k, v) → P (k, f v))
      → (rows : Table A) → All P rows
      → All P (update k f rows)
  unfolding update
  All-update P k f step [] h = tt
  All-update P k f step ((j, v) ∷ rows) h = elim (Bool-cases (j == k)) [
    | inl e ↦
        let p : j ≡ k = (==_iff j k).0 e in
        rw e (rw p (step v (rw p at h.0)), All-update P k f step rows h.1)
    | inr e ↦ rw e (h.0, All-update P k f step rows h.1)
  ]

  -- After an update, every row under its key is an updated one.
  pub update-sets {κ} :
      (P : ℕ × A → Type κ) (k : ℕ) (f : A → A)
      → ((v : A) → P (k, f v))
      → (rows : Table A) → All (λ row. row.0 ≡ k → P row) (update k f rows)
  unfolding update
  update-sets P k f set [] = tt
  update-sets P k f set ((j, v) ∷ rows) = elim (Bool-cases (j == k)) [
    | inl e ↦
        let p : j ≡ k = (==_iff j k).0 e in rw e ((λ _. rw p (set v)), update-sets P k f set rows)
    | inr e ↦
        rw e ((λ p. absurd (false≢true (sym e ∙ (==_iff j k).1 p))), update-sets P k f set rows)
  ]
