-- ===== src/Schemas/Identities.antt =====
-- The proofs on the identities that are accepted.
use flagsmith_common.Base.{
  ℕ, ◌≡◌, refl, sym, ap, ◌∙◌, ◌↔◌, ◌≢◌, inl, inr, List, [], ◌∷◌, All, All-map, Bool-cases,
}
use flagsmith_common.Validators.{
  first_seen, valid, validate_dynamo_feature_state_value, validate_identity_feature_states,
}
use flagsmith_common.Validators.Verdicts.{
  HasDistinctFeatures, validate_identity_feature_states-HasDistinctFeatures,
}
use flagsmith_common.Schemas.Types.{Value, DynamoFeatureValue}
use flagsmith_common.Schemas.Dynamodb.{FeatureState, Identity}
use flagsmith_common.Schemas.Validation.{
  validate_each, validate_optional, Conversions, validate_multivariate_values,
  validate_feature_state, validate_feature_states, validate_identity_features, validate_identity,
}
use flagsmith_common.Schemas.Acceptance.{
  Accepts, valid-injective, IfGiven-map, bind-parts, bind-Accepts, SameBy, same_cons,
  validate_each-SameBy, >>=-valid, validate_each-Accepts, validate_optional-Accepts,
}
use flagsmith_common.Schemas.States.{IsValidFeatures, IsValidIdentity, validate_state-Accepts}

module _ (c : Conversions) where
  same_feature :
      (x : FeatureState Value) (y : FeatureState DynamoFeatureValue)
      → validate_feature_state c x ≡ valid y
      → x.feature.id ≡ y.feature.id
  unfolding validate_feature_state
  same_feature x y e =
      let (v, p, g) = >>=-valid (validate_dynamo_feature_state_value x.feature_state_value) _ y e in
      let (u, p', g') = >>=-valid (validate_optional c.validate_uuid x.featurestate_uuid) _ y g in
      let (m, p'', g'') =
        >>=-valid
          (validate_optional (validate_multivariate_values c) x.multivariate_feature_state_values) _
          y g' in
      ap (λ s. s.feature.id) (valid-injective g'')

  abbrev SameFeatures : List (FeatureState Value) → List (FeatureState DynamoFeatureValue) → Type 0
  SameFeatures xs ys = SameBy (λ x. x.feature.id) (λ y. y.feature.id) xs ys

  others-SameFeatures :
      (id : ℕ) (xs : List (FeatureState Value)) (ys : List (FeatureState DynamoFeatureValue))
      → SameFeatures xs ys
      → All (λ x. x.feature.id ≢ id) xs ↔ All (λ y. y.feature.id ≢ id) ys
  others-SameFeatures id [] [] h = (λ k. tt, λ k. tt)
  others-SameFeatures id [] (y ∷ ys) h = elim h [ ]
  others-SameFeatures id (x ∷ xs) [] h = elim h [ ]
  others-SameFeatures id (x ∷ xs) (y ∷ ys) (same_cons e h) =
      let rest = others-SameFeatures id xs ys h in
      (λ (d, k). (λ f. d (e ∙ f), rest.0 k), λ (d, k). (λ f. d (sym e ∙ f), rest.1 k))

  distinct-SameFeatures :
      (xs : List (FeatureState Value)) (ys : List (FeatureState DynamoFeatureValue))
      → SameFeatures xs ys
      → HasDistinctFeatures xs ↔ HasDistinctFeatures ys
  distinct-SameFeatures [] [] h = (λ k. tt, λ k. tt)
  distinct-SameFeatures [] (y ∷ ys) h = elim h [ ]
  distinct-SameFeatures (x ∷ xs) [] h = elim h [ ]
  distinct-SameFeatures (x ∷ xs) (y ∷ ys) (same_cons e h) =
      let others = others-SameFeatures x.feature.id xs ys h in
      let rest = distinct-SameFeatures xs ys h in
      (λ (o, d). (rw (sym e) (others.0 o), rest.0 d), λ (o, d). (others.1 (rw e o), rest.1 d))

  distinct-Accepts :
      (states : List (FeatureState DynamoFeatureValue))
      → Accepts (validate_identity_feature_states states) ↔ HasDistinctFeatures states
  unfolding validate_identity_feature_states
  distinct-Accepts states =
      let verdict = validate_identity_feature_states-HasDistinctFeatures states in
      (
        λ (answer, e). elim (Bool-cases (first_seen [] states)) [
          | inl t ↦ verdict.0 (rw t refl)
          | inr t ↦ absurd (let k = rw t at e in cc)
        ],
        λ d. (states, verdict.1 d),
      )

  validate_features-Accepts :
      (states : List (FeatureState Value))
      → Accepts (validate_identity_features c states) ↔ IsValidFeatures c states
  unfolding validate_identity_features validate_feature_states
  validate_features-Accepts states =
      let each = validate_each-Accepts (validate_feature_state c) states in
      let same : (ys : List _)
          → validate_each (validate_feature_state c) states ≡ valid ys
          → SameFeatures states ys =
        λ ys e.
          validate_each-SameBy (λ x. x.feature.id) (λ y. y.feature.id) (validate_feature_state c)
            same_feature states ys e in
      (
        λ h.
            let (ys, e, g) = bind-parts (validate_each (validate_feature_state c) states) _ h in
            (
              All-map (λ v. (validate_state-Accepts c v).0) states (each.0 (ys, e)),
              (distinct-SameFeatures states ys (same ys e)).1 ((distinct-Accepts ys).0 g),
            ),
        λ (h, d).
            bind-Accepts (validate_each (validate_feature_state c) states) _
              (each.1 (All-map (λ v. (validate_state-Accepts c v).1) states h))
              (λ ys e. (distinct-Accepts ys).1 ((distinct-SameFeatures states ys (same ys e)).0 d)),
      )

  -- An identity is accepted exactly if its UUIDs and its time are, no text among the values of its overrides
  -- and of their options has more than 20000 characters, the percentages of an override sum up to at most
  -- 100, and no two overrides are of one feature.
  pub validate_identity_iff :
      (identity : Identity Value)
      → Accepts (validate_identity c identity) ↔ IsValidIdentity c identity
  unfolding validate_identity
  validate_identity_iff identity =
      let features =
        validate_optional-Accepts (validate_identity_features c) identity.identity_features in
      (
        λ h.
            let (u, e, g) = bind-parts (c.validate_uuid identity.identity_uuid) _ h in
            let (d, e', g') = bind-parts (c.validate_datetime identity.created_date) _ g in
            let (f, e'', g'') =
              bind-parts
                (validate_optional (validate_identity_features c) identity.identity_features) _
                g' in
            (
              (u, e),
              (d, e'),
              IfGiven-map (λ x. (validate_features-Accepts x).0) identity.identity_features
                  (features.0 (f, e'')),
            ),
        λ (u, d, f). bind-Accepts (c.validate_uuid identity.identity_uuid) _ u (λ u' e.
            bind-Accepts (c.validate_datetime identity.created_date) _ d (λ d' e'.
              bind-Accepts
                (validate_optional (validate_identity_features c) identity.identity_features) _
                (features.1
                  (IfGiven-map (λ x. (validate_features-Accepts x).1) identity.identity_features f))
                (λ f' e''. (_, refl)))),
      )
