-- ===== src/Validators.antt =====
-- flagsmith_schemas/validators.py, on the typed dictionaries of Schemas. A percentage is counted in a unit of
-- which `unit` make one percent.
pub mod Verdicts
use flagsmith_common.Schemas.Types.{Value, DynamoFeatureValue}
use flagsmith_common.Schemas.Dynamodb.{MultivariateFeatureStateValue, FeatureState}
use flagsmith_common.Base.{
  ℕ, ◌+◌, ◌*◌, Bool, true, false, String, Option, none, some, List, [], ◌∷◌, ltb, any, ◌==◌,
  if◌then◌else◌,
}

-- len(value)
unfoldable pub str_length : String → ℕ
str_length String.[] = 0
str_length (String.◌∷◌ c s) = str_length s + 1

abbrev pub max_string_feature_state_value_length : ℕ
max_string_feature_state_value_length = 20_000

-- A validator's answer: `value_error` for a ValueError.
pub data Validated (A : Type 0) : Type 0 where
  valid : A → Validated A
  value_error : Validated A

unfoldable pub validate_dynamo_feature_state_value : Value → Validated DynamoFeatureValue
unfolding str_length
validate_dynamo_feature_state_value Value.null = valid DynamoFeatureValue.null
validate_dynamo_feature_state_value (Value.boolean b) = valid (DynamoFeatureValue.boolean b)
validate_dynamo_feature_state_value (Value.text s) =
    if ltb max_string_feature_state_value_length (str_length s)
    then value_error
    else valid (DynamoFeatureValue.text s)
validate_dynamo_feature_state_value (Value.integer is_negative size) =
    valid (DynamoFeatureValue.decimal is_negative size)
validate_dynamo_feature_state_value (Value.object shown) = valid (DynamoFeatureValue.text shown)

module _ {V : Type 0} where
  unfoldable pub total_percentage : List (MultivariateFeatureStateValue V) → ℕ
  total_percentage [] = 0
  total_percentage (value ∷ values) = value.percentage_allocation + total_percentage values

  unfoldable pub validate_multivariate_feature_state_values :
      (unit : ℕ)
      → List (MultivariateFeatureStateValue V)
      → Validated (List (MultivariateFeatureStateValue V))
  unfolding total_percentage
  validate_multivariate_feature_state_values unit values =
      if ltb (100 * unit) (total_percentage values) then value_error else valid values

  -- The loop over the values, with the ids seen so far: whether it comes to its end.
  unfoldable pub first_seen : List ℕ → List (FeatureState V) → Bool
  first_seen seen [] = true
  first_seen seen (feature_state ∷ values) =
      let rest = first_seen (feature_state.feature.id ∷ seen) values in
      if any (λ id. id == feature_state.feature.id) seen then false else rest

  unfoldable pub validate_identity_feature_states :
      List (FeatureState V) → Validated (List (FeatureState V))
  unfolding first_seen
  validate_identity_feature_states values =
      if first_seen [] values then valid values else value_error
