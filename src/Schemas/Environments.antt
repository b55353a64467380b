-- ===== src/Schemas/Environments.antt =====
-- flagsmith_schemas/dynamodb.py: the documents of environments. A document has the fields of three typed
-- dictionaries, from which it inherits.
use flagsmith_common.Base.{Bool, String, Option, List}
use flagsmith_common.Schemas.Types.{Value, NotRequired, DynamoInt, DateTimeStr}
use flagsmith_common.Schemas.Dynamodb.{FeatureState, Project}

pub record Integration : Type 0 where
  pub api_key : NotRequired (Option String)
  pub base_url : NotRequired (Option String)

pub record DynatraceIntegration : Type 0 where
  pub integration : Integration
  pub entity_selector : String

pub record Webhook : Type 0 where
  pub url : String
  pub secret : String

pub record EnvironmentBaseFields : Type 0 where
  pub name : NotRequired String
  pub updated_at : NotRequired (Option DateTimeStr)
  pub allow_client_traits : NotRequired Bool
  pub hide_sensitive_data : NotRequired Bool
  pub hide_disabled_flags : NotRequired (Option Bool)
  pub use_identity_composite_key_for_hashing : NotRequired Bool
  pub use_identity_overrides_in_local_eval : NotRequired Bool
  pub amplitude_config : NotRequired (Option Integration)
  pub dynatrace_config : NotRequired (Option DynatraceIntegration)
  pub heap_config : NotRequired (Option Integration)
  pub mixpanel_config : NotRequired (Option Integration)
  pub rudderstack_config : NotRequired (Option Integration)
  pub segment_config : NotRequired (Option Integration)
  pub webhook_config : NotRequired (Option Webhook)

pub record EnvironmentV1Fields : Type 0 where
  pub api_key : String
  pub id : DynamoInt

-- Literal["_META"]
pub data DocumentKey : Type 0 where
  meta : DocumentKey

pub record EnvironmentV2MetaFields : Type 0 where
  pub environment_id : String
  pub environment_api_key : String
  pub document_key : DocumentKey
  pub id : DynamoInt

-- Literal[False] and Literal[True]
pub data LiteralFalse : Type 0 where
  is_false : LiteralFalse

pub data LiteralTrue : Type 0 where
  is_true : LiteralTrue

pub record EnvironmentBaseFieldsUncompressed (Rule V : Type 0) : Type 0 where
  pub project : Project Rule V
  pub feature_states : List (FeatureState V)
  pub compressed : NotRequired LiteralFalse

-- The data of a document before it is validated: the flag is any Boolean, or missing.
pub record EnvironmentData (Rule : Type 0) : Type 0 where
  pub project : Project Rule Value
  pub feature_states : List (FeatureState Value)
  pub compressed : NotRequired Bool

-- What JsonGzipped holds is bytes, which are a parameter.
pub record EnvironmentBaseFieldsCompressed (Bytes : Type 0) : Type 0 where
  pub project : Bytes
  pub feature_states : Bytes
  pub compressed : LiteralTrue

-- A document that inherits from a dictionary of data, one of keys, and the common one.
pub record Document (Data Keys : Type 0) : Type 0 where
  pub data_fields : Data
  pub key_fields : Keys
  pub base_fields : EnvironmentBaseFields

abbrev pub Environment : Type 0 → Type 0 → Type 0
Environment Rule V = Document (EnvironmentBaseFieldsUncompressed Rule V) EnvironmentV1Fields

abbrev pub EnvironmentCompressed : Type 0 → Type 0
EnvironmentCompressed Bytes = Document (EnvironmentBaseFieldsCompressed Bytes) EnvironmentV1Fields

abbrev pub EnvironmentV2Meta : Type 0 → Type 0 → Type 0
EnvironmentV2Meta Rule V =
    Document (EnvironmentBaseFieldsUncompressed Rule V) EnvironmentV2MetaFields

abbrev pub EnvironmentV2MetaCompressed : Type 0 → Type 0
EnvironmentV2MetaCompressed Bytes =
    Document (EnvironmentBaseFieldsCompressed Bytes) EnvironmentV2MetaFields

pub record EnvironmentApiKey : Type 0 where
  pub id : DynamoInt
  pub key : String
  pub created_at : DateTimeStr
  pub name : String
  pub client_api_key : String
  pub expires_at : NotRequired (Option DateTimeStr)
  pub active : Bool

pub record EnvironmentV2IdentityOverride (V : Type 0) : Type 0 where
  pub environment_id : String
  pub document_key : String
  pub environment_api_key : String
  pub identifier : String
  pub identity_uuid : String
  pub feature_state : FeatureState V
  pub created_date : NotRequired DateTimeStr
