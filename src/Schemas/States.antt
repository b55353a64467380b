-- ===== src/Schemas/States.antt =====
-- What is accepted of identities, and the proofs on the states of features.
use flagsmith_common.Base.{
  ◌*◌, ◌≤◌, ◌≡◌, refl, ap, ◌↔◌, inl, inr, List, [], ◌∷◌, All, All-map, Bool-cases, ltb, arith,
}
use flagsmith_common.Validators.{
  valid, validate_dynamo_feature_state_value, total_percentage,
  validate_multivariate_feature_state_values,
}
use flagsmith_common.Validators.Verdicts.{HasDistinctFeatures}
use flagsmith_common.Schemas.Types.{Value, DynamoFeatureValue}
use flagsmith_common.Schemas.Dynamodb.{
  MultivariateFeatureOption, MultivariateFeatureStateValue, FeatureState, Identity,
}
use flagsmith_common.Schemas.Validation.{
  validate_each, validate_optional, Conversions, validate_multivariate_feature_option,
  validate_multivariate_feature_state_value, validate_multivariate_values, validate_feature_state,
}
use flagsmith_common.Schemas.Acceptance.{
  Accepts, valid-injective, IfGiven-map, bind-parts, bind-Accepts, SameBy, same_nil, same_cons,
  validate_each-SameBy, >>=-valid, validate_each-Accepts, IfGiven, validate_optional-Accepts,
  IsShort, validate_value-Accepts,
}

module _ (c : Conversions) where
  -- A text of an option that is not too long, and a UUID, if there is one.
  abbrev pub IsValidMultivariate : MultivariateFeatureStateValue Value → Type 0
  IsValidMultivariate state =
      IfGiven (λ uuid. Accepts (c.validate_uuid uuid)) state.mv_fs_value_uuid
      × IsShort state.multivariate_feature_option.value

  -- The percentages sum up to no more than 100.
  abbrev pub IsValidMultivariateList : List (MultivariateFeatureStateValue Value) → Type 0
  IsValidMultivariateList values =
      All IsValidMultivariate values × (total_percentage values ≤ 100 * c.unit)

  abbrev pub IsValidState : FeatureState Value → Type 0
  IsValidState state =
      IsShort state.feature_state_value
      × IfGiven (λ uuid. Accepts (c.validate_uuid uuid)) state.featurestate_uuid
      × IfGiven IsValidMultivariateList state.multivariate_feature_state_values

  abbrev pub IsValidFeatures : List (FeatureState Value) → Type 0
  IsValidFeatures states = All IsValidState states × HasDistinctFeatures states

  abbrev pub IsValidIdentity : Identity Value → Type 0
  IsValidIdentity identity =
      Accepts (c.validate_uuid identity.identity_uuid)
      × Accepts (c.validate_datetime identity.created_date)
      × IfGiven IsValidFeatures identity.identity_features

  validate_option-Accepts :
      (option : MultivariateFeatureOption Value)
      → Accepts (validate_multivariate_feature_option c option) ↔ IsShort option.value
  unfolding validate_multivariate_feature_option
  validate_option-Accepts option =
      let value = validate_value-Accepts option.value in
      (
        λ h.
            let (v, f, g) = bind-parts (validate_dynamo_feature_state_value option.value) _ h in
            value.0 (v, f),
        λ h.
            bind-Accepts (validate_dynamo_feature_state_value option.value) _ (value.1 h)
              (λ v e. (_, refl)),
      )

  validate_multivariate-Accepts :
      (state : MultivariateFeatureStateValue Value)
      → Accepts (validate_multivariate_feature_state_value c state) ↔ IsValidMultivariate state
  unfolding validate_multivariate_feature_state_value
  validate_multivariate-Accepts state =
      let uuid = validate_optional-Accepts c.validate_uuid state.mv_fs_value_uuid in
      let option = validate_option-Accepts state.multivariate_feature_option in
      (
        λ h.
            let (u, f, g) =
              bind-parts (validate_optional c.validate_uuid state.mv_fs_value_uuid) _ h in
            let (o, f', g') =
              bind-parts (validate_multivariate_feature_option c state.multivariate_feature_option)
                _ g in
            (uuid.0 (u, f), option.0 (o, f')),
        λ (u, o).
            bind-Accepts (validate_optional c.validate_uuid state.mv_fs_value_uuid) _ (uuid.1 u)
              (λ u' e.
                bind-Accepts
                  (validate_multivariate_feature_option c state.multivariate_feature_option) _
                  (option.1 o) (λ o' e'. (_, refl))),
      )

  same_percentage :
      (x : MultivariateFeatureStateValue Value)
      (y : MultivariateFeatureStateValue DynamoFeatureValue)
      → validate_multivariate_feature_state_value c x ≡ valid y
      → x.percentage_allocation ≡ y.percentage_allocation
  unfolding validate_multivariate_feature_state_value
  same_percentage x y e =
      let (u, f, g) = >>=-valid (validate_optional c.validate_uuid x.mv_fs_value_uuid) _ y e in
      let (o, f', g') =
        >>=-valid (validate_multivariate_feature_option c x.multivariate_feature_option) _ y g in
      ap (λ v. v.percentage_allocation) (valid-injective g')

  same_total :
      (xs : List (MultivariateFeatureStateValue Value))
      (ys : List (MultivariateFeatureStateValue DynamoFeatureValue))
      → SameBy (λ x. x.percentage_allocation) (λ y. y.percentage_allocation) xs ys
      → total_percentage xs ≡ total_percentage ys
  unfolding total_percentage
  same_total [] [] same_nil = refl
  same_total [] (y ∷ ys) h = elim h [ ]
  same_total (x ∷ xs) [] h = elim h [ ]
  same_total (x ∷ xs) (y ∷ ys) (same_cons e h) = rw (e, same_total xs ys h) refl

  total-Accepts :
      (values : List (MultivariateFeatureStateValue DynamoFeatureValue))
      → Accepts (validate_multivariate_feature_state_values c.unit values)
        ↔ (total_percentage values ≤ 100 * c.unit)
  unfolding validate_multivariate_feature_state_values
  total-Accepts values = elim (Bool-cases (ltb (100 * c.unit) (total_percentage values))) [
    | inl e ↦ (λ (answer, f). absurd (let k = rw e at f in cc), λ h. absurd (ground arith))
    | inr e ↦ (λ h. ground arith, λ h. (values, rw e refl))
  ]

  validate_values-Accepts :
      (values : List (MultivariateFeatureStateValue Value))
      → Accepts (validate_multivariate_values c values) ↔ IsValidMultivariateList values
  unfolding validate_multivariate_values
  validate_values-Accepts values =
      let each = validate_each-Accepts (validate_multivariate_feature_state_value c) values in
      let total : (ys : List _)
          → validate_each (validate_multivariate_feature_state_value c) values ≡ valid ys
          → total_percentage values ≡ total_percentage ys =
        λ ys e. same_total values ys (
          validate_each-SameBy (λ x. x.percentage_allocation) (λ y. y.percentage_allocation)
            (validate_multivariate_feature_state_value c) same_percentage values ys e) in
      (
        λ h.
            let (ys, e, g) =
              bind-parts (validate_each (validate_multivariate_feature_state_value c) values) _ h in
            (
              All-map (λ v. (validate_multivariate-Accepts v).0) values (each.0 (ys, e)),
              rw (total ys e) ((total-Accepts ys).0 g),
            ),
        λ (h, t).
            bind-Accepts (validate_each (validate_multivariate_feature_state_value c) values) _
              (each.1 (All-map (λ v. (validate_multivariate-Accepts v).1) values h))
              (λ ys e. (total-Accepts ys).1 (rw⁻¹ (total ys e) t)),
      )

  pub validate_state-Accepts :
      (state : FeatureState Value) → Accepts (validate_feature_state c state) ↔ IsValidState state
  unfolding validate_feature_state
  validate_state-Accepts state =
      let value = validate_value-Accepts state.feature_state_value in
      let uuid = validate_optional-Accepts c.validate_uuid state.featurestate_uuid in
      let values =
        validate_optional-Accepts (validate_multivariate_values c)
          state.multivariate_feature_state_values in
      (
        λ h.
            let (v, e, g) =
              bind-parts (validate_dynamo_feature_state_value state.feature_state_value) _ h in
            let (u, e', g') =
              bind-parts (validate_optional c.validate_uuid state.featurestate_uuid) _ g in
            let (m, e'', g'') =
              bind-parts
                (validate_optional (validate_multivariate_values c)
                  state.multivariate_feature_state_values)
                _ g' in
            (
              value.0 (v, e),
              uuid.0 (u, e'),
              IfGiven-map (λ x. (validate_values-Accepts x).0)
                  state.multivariate_feature_state_values (values.0 (m, e'')),
            ),
        λ (v, u, m).
            bind-Accepts (validate_dynamo_feature_state_value state.feature_state_value) _
              (value.1 v)
              (λ v' e.
                bind-Accepts (validate_optional c.validate_uuid state.featurestate_uuid) _
                  (uuid.1 u)
                  (λ u' e'.
                    bind-Accepts
                      (validate_optional (validate_multivariate_values c)
                        state.multivariate_feature_state_values)
                      _
                      (values.1 (
                        IfGiven-map (λ x. (validate_values-Accepts x).1)
                          state.multivariate_feature_state_values m))
                      (λ m' e''. (_, refl)))),
      )
