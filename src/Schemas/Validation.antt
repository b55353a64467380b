-- ===== src/Schemas/Validation.antt =====
-- The validation of the typed dictionaries by pydantic: each annotated field by its validator of
-- pydantic_types.py, a list by its elements, and then what is annotated behind them. Of the conversions of
-- pydantic, those of UUIDs and of times are parameters; numbers are ids and percentages already.
use flagsmith_common.Base.{ℕ, Bool, true, false, String, Option, none, some, List, [], ◌∷◌}
use flagsmith_common.Validators.{
  Validated, valid, value_error, validate_dynamo_feature_state_value,
  validate_multivariate_feature_state_values, validate_identity_feature_states,
}
use flagsmith_common.Schemas.Types.{Value, DynamoFeatureValue}
use flagsmith_common.Schemas.Dynamodb.{
  MultivariateFeatureOption, MultivariateFeatureStateValue, FeatureState, Segment, Project,
  Identity,
}
use flagsmith_common.Schemas.Environments.{
  EnvironmentBaseFields, EnvironmentBaseFieldsUncompressed, EnvironmentBaseFieldsCompressed,
  EnvironmentData, LiteralFalse, is_false, LiteralTrue, is_true, Document,
}

infixl 5 ◌>>=◌
abbrev pub ◌>>=◌ : {A B : Type 0} → Validated A → (A → Validated B) → Validated B
value_error >>= next = value_error
valid answer >>= next = next answer

unfoldable pub validate_each : {A B : Type 0} → (A → Validated B) → List A → Validated (List B)
validate_each validate [] = valid []
validate_each validate (x ∷ xs) = do y ← validate x; ys ← validate_each validate xs; valid (y ∷ ys)

-- A key that may be missing, and a value that may be None.
abbrev pub validate_optional : {A B : Type 0} → (A → Validated B) → Option A → Validated (Option B)
validate_optional validate none = valid none
validate_optional validate (some x) = validate x >>= λ y. valid (some y)

-- ValidateStrAsUUID and ValidateStrAsISODateTime, and the unit of percentages.
pub record Conversions : Type 0 where
  pub validate_uuid : String → Validated String
  pub validate_datetime : String → Validated String
  pub unit : ℕ

module _ (c : Conversions) where
  unfoldable pub validate_multivariate_feature_option :
      MultivariateFeatureOption Value → Validated (MultivariateFeatureOption DynamoFeatureValue)
  unfolding validate_dynamo_feature_state_value
  validate_multivariate_feature_option option = do
    value ← validate_dynamo_feature_state_value option.value
    valid (record { id = option.id; value = value; key = option.key })

  unfoldable pub validate_multivariate_feature_state_value :
      MultivariateFeatureStateValue Value
      → Validated (MultivariateFeatureStateValue DynamoFeatureValue)
  unfolding validate_multivariate_feature_option
  validate_multivariate_feature_state_value state = do
    mv_fs_value_uuid ← validate_optional c.validate_uuid state.mv_fs_value_uuid
    multivariate_feature_option ←
        validate_multivariate_feature_option state.multivariate_feature_option
    valid (record {
      id = state.id;
      mv_fs_value_uuid = mv_fs_value_uuid;
      percentage_allocation = state.percentage_allocation;
      multivariate_feature_option = multivariate_feature_option;
    })

  -- The list, and then ValidateMultivariateFeatureValuesList.
  unfoldable pub validate_multivariate_values :
      List (MultivariateFeatureStateValue Value)
      → Validated (List (MultivariateFeatureStateValue DynamoFeatureValue))
  unfolding validate_each validate_multivariate_feature_state_value
      validate_multivariate_feature_state_values
  validate_multivariate_values values =
      validate_each validate_multivariate_feature_state_value values
      >>= validate_multivariate_feature_state_values c.unit

  unfoldable pub validate_feature_state :
      FeatureState Value → Validated (FeatureState DynamoFeatureValue)
  unfolding validate_multivariate_values validate_dynamo_feature_state_value
  validate_feature_state state = do
    feature_state_value ← validate_dynamo_feature_state_value state.feature_state_value
    featurestate_uuid ← validate_optional c.validate_uuid state.featurestate_uuid
    multivariate ←
        validate_optional validate_multivariate_values state.multivariate_feature_state_values
    valid (record {
      feature = state.feature;
      enabled = state.enabled;
      feature_state_value = feature_state_value;
      django_id = state.django_id;
      featurestate_uuid = featurestate_uuid;
      feature_segment = state.feature_segment;
      multivariate_feature_state_values = multivariate;
    })

  unfoldable pub validate_feature_states :
      List (FeatureState Value) → Validated (List (FeatureState DynamoFeatureValue))
  unfolding validate_each validate_feature_state
  validate_feature_states states = validate_each validate_feature_state states

  -- The list, and then ValidateIdentityFeatureStatesList.
  unfoldable pub validate_identity_features :
      List (FeatureState Value) → Validated (List (FeatureState DynamoFeatureValue))
  unfolding validate_feature_states validate_identity_feature_states
  validate_identity_features states =
      validate_feature_states states >>= validate_identity_feature_states

  unfoldable pub validate_identity : Identity Value → Validated (Identity DynamoFeatureValue)
  unfolding validate_identity_features
  validate_identity identity = do
    identity_uuid ← c.validate_uuid identity.identity_uuid
    created_date ← c.validate_datetime identity.created_date
    identity_features ← validate_optional validate_identity_features identity.identity_features
    valid (record {
      identifier = identity.identifier;
      environment_api_key = identity.environment_api_key;
      identity_uuid = identity_uuid;
      composite_key = identity.composite_key;
      created_date = created_date;
      identity_features = identity_features;
      identity_traits = identity.identity_traits;
      django_id = identity.django_id;
    })

  module _ {Rule : Type 0} where
    unfoldable pub validate_segment :
        Segment Rule Value → Validated (Segment Rule DynamoFeatureValue)
    unfolding validate_feature_states
    validate_segment segment = do
      feature_states ← validate_optional validate_feature_states segment.feature_states
      valid (record {
        id = segment.id;
        name = segment.name;
        rules = segment.rules;
        feature_states = feature_states;
      })

    unfoldable pub validate_project :
        Project Rule Value → Validated (Project Rule DynamoFeatureValue)
    unfolding validate_each validate_segment
    validate_project project = do
      segments ← validate_each validate_segment project.segments
      valid (record {
        id = project.id;
        name = project.name;
        organisation = project.organisation;
        segments = segments;
        server_key_only_feature_ids = project.server_key_only_feature_ids;
        enable_realtime_updates = project.enable_realtime_updates;
        hide_disabled_flags = project.hide_disabled_flags;
      })

  unfoldable pub validate_base_fields : EnvironmentBaseFields → Validated EnvironmentBaseFields
  validate_base_fields base = do
    updated_at ← validate_optional (validate_optional c.validate_datetime) base.updated_at
    valid (record base { updated_at = updated_at })

-- Literal[False], and Literal[True] of a key that must be there.
unfoldable pub validate_literal_false : Bool → Validated LiteralFalse
validate_literal_false true = value_error
validate_literal_false false = valid is_false

unfoldable pub validate_literal_true : Option Bool → Validated LiteralTrue
validate_literal_true (some true) = valid is_true
validate_literal_true (some false) = value_error
validate_literal_true none = value_error

-- What json_gzip calls: simplejson.dumps with sorted keys for the two types, encode, and gzip.compress with
-- mtime=0. JSON texts and bytes are parameters.
pub record Gzip (P S Json Bytes : Type 0) : Type 0 where
  pub dumps_project : P → Json
  pub dumps_states : S → Json
  pub encode : Json → Bytes
  pub compress : Bytes → Bytes

module _ {P S Json Bytes : Type 0} (g : Gzip P S Json Bytes) where
  abbrev pub json_gzip : {A : Type 0} → (A → Json) → A → Bytes
  json_gzip dumps value = g.compress (g.encode (dumps value))

module _ (c : Conversions) {Rule Keys : Type 0} where
  -- A document that is not compressed: Environment and EnvironmentV2Meta.
  unfoldable pub validate_environment :
      Document (EnvironmentData Rule) Keys
      → Validated (Document (EnvironmentBaseFieldsUncompressed Rule DynamoFeatureValue) Keys)
  unfolding validate_project validate_feature_states validate_base_fields validate_literal_false
  validate_environment document = do
    project ← validate_project c document.data_fields.project
    feature_states ← validate_feature_states c document.data_fields.feature_states
    base_fields ← validate_base_fields c document.base_fields
    compressed ← validate_optional validate_literal_false document.data_fields.compressed
    valid (record {
      data_fields = record {
        project = project;
        feature_states = feature_states;
        compressed = compressed;
      };
      key_fields = document.key_fields;
      base_fields = base_fields;
    })

  module _ {Json Bytes : Type 0}
      (g : Gzip
        (Project Rule DynamoFeatureValue)
        (List (FeatureState DynamoFeatureValue))
        Json
        Bytes) where
    -- A document as EnvironmentCompressed or EnvironmentV2MetaCompressed, from uncompressed data:
    -- JsonGzipped validates the data and compresses what it is validated to.
    unfoldable pub validate_environment_compressed :
        Document (EnvironmentData Rule) Keys
        → Validated (Document (EnvironmentBaseFieldsCompressed Bytes) Keys)
    unfolding validate_project validate_feature_states validate_base_fields validate_literal_true
    validate_environment_compressed document = do
      project ← validate_project c document.data_fields.project
      feature_states ← validate_feature_states c document.data_fields.feature_states
      base_fields ← validate_base_fields c document.base_fields
      compressed ← validate_literal_true document.data_fields.compressed
      valid (record {
        data_fields = record {
          project = json_gzip g g.dumps_project project;
          feature_states = json_gzip g g.dumps_states feature_states;
          compressed = compressed;
        };
        key_fields = document.key_fields;
        base_fields = base_fields;
      })
