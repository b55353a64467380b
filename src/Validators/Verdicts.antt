-- ===== src/Validators/Verdicts.antt =====
-- What the validators accept.
use flagsmith_common.Base.{
  ℕ, ◌≡◌, refl, sym, ◌≢◌, ◌↔◌, inl, inr, true, false, List, [], ◌∷◌, arith, All, All-map, All-zip,
  any, Bool-cases, ◌==◌, ==_iff,
}
use flagsmith_common.Schemas.Dynamodb.{FeatureState}
use flagsmith_common.Validators.{valid, first_seen, validate_identity_feature_states}

module _ {V : Type 0} where
  -- No two of the states are of one feature.
  abbrev pub HasDistinctFeatures : List (FeatureState V) → Type 0
  HasDistinctFeatures [] = Unit
  HasDistinctFeatures (state ∷ states) =
      All (λ other. other.feature.id ≢ state.feature.id) states × HasDistinctFeatures states

  -- None of the states is of a feature that was seen.
  abbrev IsNew : List ℕ → FeatureState V → Type 0
  IsNew seen state = any (λ id. id == state.feature.id) seen ≡ false

  IsNew-cons :
      (id : ℕ) (seen : List ℕ) (state : FeatureState V)
      → IsNew (id ∷ seen) state ↔ ((state.feature.id ≢ id) × IsNew seen state)
  IsNew-cons id seen state = (forth, back)
    where
      forth : IsNew (id ∷ seen) state → (state.feature.id ≢ id) × IsNew seen state
      forth h = elim (Bool-cases (id == state.feature.id)) [
        | inl e ↦ absurd (let h' = rw e at h in cc)
        | inr e ↦ ((λ same. let e' = rw same at e in ground (arith, e')), rw e at h)
      ]

      back : (state.feature.id ≢ id) × IsNew seen state → IsNew (id ∷ seen) state
      back (d, h) = elim (Bool-cases (id == state.feature.id)) [
        | inl e ↦ absurd (d (sym ((==_iff id state.feature.id).0 e)))
        | inr e ↦ rw e h
      ]

  first_seen-HasDistinctFeatures :
      (seen : List ℕ) (states : List (FeatureState V))
      → (first_seen seen states ≡ true) ↔ (All (IsNew seen) states × HasDistinctFeatures states)
  unfolding first_seen
  first_seen-HasDistinctFeatures seen [] = (λ h. (tt, tt), λ h. refl)
  first_seen-HasDistinctFeatures seen (state ∷ states) =
      elim (Bool-cases (any (λ id. id == state.feature.id) seen)) [
        | inl e ↦ rw e ((λ h. cc), (λ (new, d). let n = new.0 in cc))
        | inr e ↦
            let rest = first_seen-HasDistinctFeatures (state.feature.id ∷ seen) states in
            (
              λ h.
                  let (new, distinct) = rest.0 (rw e at h) in
                  (
                    (e, All-map (λ s n. ((IsNew-cons state.feature.id seen s).0 n).1) states new),
                    (
                      All-map (λ s n. ((IsNew-cons state.feature.id seen s).0 n).0) states new,
                      distinct,
                    ),
                  ),
              λ (new, distinct). rw e (
                  rest.1 (
                    All-zip (λ s d n. (IsNew-cons state.feature.id seen s).1 (d, n)) states
                        distinct.0 new.1,
                    distinct.1,
                  )),
            )
      ]

  -- The states of an identity are valid exactly if no two of them are of one feature.
  pub validate_identity_feature_states-HasDistinctFeatures :
      (values : List (FeatureState V))
      → (validate_identity_feature_states values ≡ valid values) ↔ HasDistinctFeatures values
  unfolding validate_identity_feature_states
  validate_identity_feature_states-HasDistinctFeatures values =
      let loop = first_seen-HasDistinctFeatures [] values in
      (λ h. (loop.0 (ground (arith, h))).1, λ d. rw (loop.1 (none_seen values, d)) refl)
    where
      none_seen : (states : List (FeatureState V)) → All (IsNew []) states
      none_seen [] = tt
      none_seen (state ∷ states) = (refl, none_seen states)
