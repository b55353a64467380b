-- ===== src/Schemas/Types.antt =====
-- flagsmith_schemas/types.py. An id is a natural number; a percentage is counted in a unit of which a number
-- makes one percent; UUIDs and times are texts.
use flagsmith_common.Base.{ℕ, Bool, String, Option}

-- A key that may be missing.
abbrev pub NotRequired : Type 0 → Type 0
NotRequired A = Option A

abbrev pub DynamoInt : Type 0
DynamoInt = ℕ

abbrev pub DynamoFloat : Type 0
DynamoFloat = ℕ

abbrev pub UuidStr : Type 0
UuidStr = String

abbrev pub DateTimeStr : Type 0
DateTimeStr = String

pub data FeatureType : Type 0 where
  standard multivariate : FeatureType

-- A value of any type: an integer by its sign and its size, any other by what `str` makes of it.
pub data Value : Type 0 where
  null : Value
  boolean : Bool → Value
  text : String → Value
  integer : (is_negative : Bool) (size : ℕ) → Value
  object : (shown : String) → Value

pub data DynamoFeatureValue : Type 0 where
  null : DynamoFeatureValue
  boolean : Bool → DynamoFeatureValue
  text : String → DynamoFeatureValue
  decimal : (is_negative : Bool) (size : ℕ) → DynamoFeatureValue

-- A number of a context is given by its digits.
pub data DynamoContextValue : Type 0 where
  decimal : (digits : String) → DynamoContextValue
  boolean : Bool → DynamoContextValue
  text : String → DynamoContextValue

pub data FeatureValue : Type 0 where
  null : FeatureValue
  integer : (is_negative : Bool) (size : ℕ) → FeatureValue
  boolean : Bool → FeatureValue
  text : String → FeatureValue
