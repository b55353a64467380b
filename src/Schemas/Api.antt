-- ===== src/Schemas/Api.antt =====
-- flagsmith_schemas/api.py: the requests and the responses of the SDK API. Values of contexts and the names
-- of operators and rules are those of flag_engine.
use flagsmith_common.Base.{ℕ, Bool, String, Option, List}
use flagsmith_common.Schemas.Types.{NotRequired, UuidStr, FeatureType, FeatureValue}

pub record Feature : Type 0 where
  pub id : ℕ
  pub name : String
  pub type : FeatureType

pub record MultivariateFeatureOption : Type 0 where
  pub value : String

pub record MultivariateFeatureStateValue : Type 0 where
  pub id : Option ℕ
  pub mv_fs_value_uuid : Option UuidStr
  pub percentage_allocation : ℕ
  pub multivariate_feature_option : MultivariateFeatureOption

pub record FeatureSegment : Type 0 where
  pub priority : Option ℕ

pub record FeatureState : Type 0 where
  pub feature : Feature
  pub enabled : Bool
  pub feature_state_value : FeatureValue
  pub featurestate_uuid : UuidStr
  pub feature_segment : Option FeatureSegment
  pub multivariate_feature_state_values : List MultivariateFeatureStateValue

pub record Trait (ContextValue : Type 0) : Type 0 where
  pub trait_key : String
  pub trait_value : ContextValue

pub record SegmentCondition (Operator : Type 0) : Type 0 where
  pub operator : Operator
  pub value : String
  pub property_ : String

mutual
  pub data SegmentRule (Operator RuleType : Type 0) : Type 0 where
    segment_rule :
        (type : RuleType)
        → (rules : SegmentRules Operator RuleType) → (conditions : List (SegmentCondition Operator))
        → SegmentRule Operator RuleType

  pub data SegmentRules (Operator RuleType : Type 0) : Type 0 where
    no_rules : SegmentRules Operator RuleType
    more_rules :
        SegmentRule Operator RuleType
        → SegmentRules Operator RuleType
        → SegmentRules Operator RuleType

-- `Rule` stands for the type of rules, which is `SegmentRule` for the operators and types of flag_engine.
pub record Segment (Rule : Type 0) : Type 0 where
  pub id : ℕ
  pub name : String
  pub rules : List Rule
  pub feature_states : NotRequired (List FeatureState)

pub record Project (Rule : Type 0) : Type 0 where
  pub segments : List (Segment Rule)

pub record IdentityOverride : Type 0 where
  pub identifier : String
  pub identity_features : List FeatureState

pub record TraitInput (ContextValue : Type 0) : Type 0 where
  pub trait_key : String
  pub trait_value : ContextValue
  pub transient : NotRequired (Option Bool)

pub record V1Flag : Type 0 where
  pub feature : Feature
  pub enabled : Bool
  pub feature_state_value : FeatureValue

pub record V1IdentitiesRequest (ContextValue : Type 0) : Type 0 where
  pub identifier : String
  pub traits : NotRequired (Option (List (TraitInput ContextValue)))
  pub transient : NotRequired (Option Bool)

pub record V1EnvironmentDocumentResponse (Rule : Type 0) : Type 0 where
  pub api_key : String
  pub feature_states : List FeatureState
  pub identity_overrides : List IdentityOverride
  pub name : String
  pub project : Project Rule

abbrev pub V1FlagsResponse : Type 0
V1FlagsResponse = List V1Flag

pub record V1IdentitiesResponse (ContextValue : Type 0) : Type 0 where
  pub identifier : String
  pub flags : List V1Flag
  pub traits : List (Trait ContextValue)
