-- ===== src/Schemas/Dynamodb.antt =====
-- flagsmith_schemas/dynamodb.py: features, identities, segments and projects. Before its validation a value
-- of a feature is a `Value`, behind it a `DynamoFeatureValue`; the operators of conditions and the types of
-- rules are those of flag_engine.
use flagsmith_common.Base.{Bool, String, Option, List}
use flagsmith_common.Schemas.Types.{
  NotRequired, DynamoInt, DynamoFloat, UuidStr, DateTimeStr, FeatureType, DynamoContextValue,
}

pub record Feature : Type 0 where
  pub id : DynamoInt
  pub name : String
  pub type : FeatureType

pub record MultivariateFeatureOption (V : Type 0) : Type 0 where
  pub id : NotRequired (Option DynamoInt)
  pub value : V
  pub key : NotRequired (Option String)

pub record MultivariateFeatureStateValue (V : Type 0) : Type 0 where
  pub id : NotRequired (Option DynamoInt)
  pub mv_fs_value_uuid : NotRequired UuidStr
  pub percentage_allocation : DynamoFloat
  pub multivariate_feature_option : MultivariateFeatureOption V

pub record FeatureSegment : Type 0 where
  pub priority : NotRequired (Option DynamoInt)

pub record FeatureState (V : Type 0) : Type 0 where
  pub feature : Feature
  pub enabled : Bool
  pub feature_state_value : V
  pub django_id : NotRequired (Option DynamoInt)
  pub featurestate_uuid : NotRequired UuidStr
  pub feature_segment : NotRequired (Option FeatureSegment)
  pub multivariate_feature_state_values : NotRequired (List (MultivariateFeatureStateValue V))

pub record Trait : Type 0 where
  pub trait_key : String
  pub trait_value : DynamoContextValue

pub record SegmentCondition (Operator : Type 0) : Type 0 where
  pub operator : Operator
  pub value : NotRequired (Option String)
  pub property_ : NotRequired (Option String)

-- A rule, with its nested rules.
mutual
  pub data SegmentRule (Operator RuleType : Type 0) : Type 0 where
    segment_rule :
        (type : RuleType)
        → (rules : SegmentRules Operator RuleType) → (conditions : List (SegmentCondition Operator))
        → SegmentRule Operator RuleType

  pub data SegmentRules (Operator RuleType : Type 0) : Type 0 where
    no_rules : SegmentRules Operator RuleType
    more_rules :
        SegmentRule Operator RuleType
        → SegmentRules Operator RuleType
        → SegmentRules Operator RuleType

-- `Rule` stands for the type of rules, which is `SegmentRule` for the operators and types of flag_engine.
pub record Segment (Rule V : Type 0) : Type 0 where
  pub id : DynamoInt
  pub name : String
  pub rules : List Rule
  pub feature_states : NotRequired (List (FeatureState V))

pub record Organisation : Type 0 where
  pub id : DynamoInt
  pub name : String
  pub feature_analytics : NotRequired Bool
  pub stop_serving_flags : NotRequired Bool
  pub persist_trait_data : NotRequired Bool

pub record Project (Rule V : Type 0) : Type 0 where
  pub id : DynamoInt
  pub name : String
  pub organisation : Organisation
  pub segments : List (Segment Rule V)
  pub server_key_only_feature_ids : NotRequired (List DynamoInt)
  pub enable_realtime_updates : NotRequired Bool
  pub hide_disabled_flags : NotRequired (Option Bool)

pub record Identity (V : Type 0) : Type 0 where
  pub identifier : String
  pub environment_api_key : String
  pub identity_uuid : UuidStr
  pub composite_key : String
  pub created_date : DateTimeStr
  pub identity_features : NotRequired (List (FeatureState V))
  pub identity_traits : List Trait
  pub django_id : NotRequired (Option DynamoInt)
