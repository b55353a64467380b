-- ===== src/Schemas/Examples.antt =====
-- The theorems on the typed dictionaries, at one identity and at one environment.
use flagsmith_common.Base.{◌≡◌, ◌≢◌, ◌↔◌, ◌⊎◌, inl, inr, true, none, some, List, [], ◌∷◌}
use flagsmith_common.Validators.{valid}
use flagsmith_common.Schemas.Types.{Value, DynamoFeatureValue, standard}
use flagsmith_common.Schemas.Dynamodb.{FeatureState, Project, Identity}
use flagsmith_common.Schemas.Environments.{
  EnvironmentBaseFields, EnvironmentData, EnvironmentV1Fields, Document,
}
use flagsmith_common.Schemas.Validation.{
  Conversions, validate_identity, validate_environment, Gzip, validate_environment_compressed,
}
use flagsmith_common.Schemas.Acceptance.{Accepts}
use flagsmith_common.Schemas.States.{IsValidIdentity}
use flagsmith_common.Schemas.Identities.{validate_identity_iff}
use flagsmith_common.Schemas.Compression.{IsValidDocument, validate_environment_iff}

-- The conversions, were all texts UUIDs and times.
abbrev conversions : Conversions
conversions = record { validate_uuid = valid; validate_datetime = valid; unit = 1 }

abbrev state : FeatureState Value
state = record {
  feature = record { id = 1; name = "banner"; type = standard };
  enabled = true;
  feature_state_value = Value.text "blue";
  django_id = none;
  featurestate_uuid = none;
  feature_segment = none;
  multivariate_feature_state_values = none;
}

abbrev identity : Identity Value
identity = record {
  identifier = "user";
  environment_api_key = "env";
  identity_uuid = "59efa2a7-6a45-46d6-b953-a7073a90eacf";
  composite_key = "env_user";
  created_date = "2025-01-01T00:00:00";
  identity_features = some (state ∷ state ∷ []);
  identity_traits = [];
  django_id = none;
}

validate_identity_iff_example :
    Accepts (validate_identity conversions identity) ↔ IsValidIdentity conversions identity
validate_identity_iff_example = validate_identity_iff conversions identity

-- Rules are not looked at.
abbrev project : Project Unit Value
project = record {
  id = 1;
  name = "project";
  organisation = record {
    id = 1;
    name = "organisation";
    feature_analytics = none;
    stop_serving_flags = none;
    persist_trait_data = none;
  };
  segments = [];
  server_key_only_feature_ids = none;
  enable_realtime_updates = none;
  hide_disabled_flags = none;
}

abbrev base_fields : EnvironmentBaseFields
base_fields = record {
  name = some "production";
  updated_at = none;
  allow_client_traits = none;
  hide_sensitive_data = none;
  hide_disabled_flags = none;
  use_identity_composite_key_for_hashing = none;
  use_identity_overrides_in_local_eval = none;
  amplitude_config = none;
  dynatrace_config = none;
  heap_config = none;
  mixpanel_config = none;
  rudderstack_config = none;
  segment_config = none;
  webhook_config = none;
}

abbrev document : Document (EnvironmentData Unit) EnvironmentV1Fields
document = record {
  data_fields = record { project = project; feature_states = state ∷ []; compressed = some true };
  key_fields = record { api_key = "env"; id = 1 };
  base_fields = base_fields;
}

abbrev ValidProject : Type 0
ValidProject = Project Unit DynamoFeatureValue

abbrev ValidStates : Type 0
ValidStates = List (FeatureState DynamoFeatureValue)

-- The JSON of a value is the value, and so are its bytes.
abbrev gzip :
    Gzip ValidProject ValidStates (ValidProject ⊎ ValidStates) (ValidProject ⊎ ValidStates)
gzip = record {
  dumps_project = inl;
  dumps_states = inr;
  encode = λ json. json;
  compress = λ bytes. bytes;
}

validate_environment_iff_example :
    (Accepts (validate_environment conversions document)
      ↔ ((some true ≢ some true) × IsValidDocument conversions document))
    × (Accepts (validate_environment_compressed conversions gzip document)
        ↔ ((some true ≡ some true) × IsValidDocument conversions document))
validate_environment_iff_example = validate_environment_iff conversions gzip document
