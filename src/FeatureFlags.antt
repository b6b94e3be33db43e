-- ===== src/FeatureFlags.antt =====
-- models/feature_flags.py and services/feature_flag_service.py: flags, their overrides, and the value
-- that a context sees. Values are JSON values. A percentage is a float, that is a fraction whose
-- denominator is positive, so that comparing it with a whole number is exact.
pub mod Evaluation
pub mod Service
pub mod Overrides
pub mod Formula
pub mod Enabled
pub mod Rollout
pub mod Refresh
mod Examples
use open_langgraph_platform.Prelude.{
  ℕ, zero, suc, ◌*◌, Bool, true, false, ◌&&◌, ◌||◌, not, Option, none, some, List, [], ◌∷◌, Text,
  codes, text_eq, if◌then◌else◌, leb, ltb,
}
use open_langgraph_platform.Prelude.Int.{ℤ}
use open_langgraph_platform.Value.{
  Value, none_value, bool, num, str, list, tuple, dict, Fields, is_truthy,
}

pub data FlagValueType : Type 0 where
  boolean string number json : FlagValueType

pub data FlagStatus : Type 0 where
  active disabled archived : FlagStatus

-- `status.value`
unfoldable pub status_value : FlagStatus → Text
status_value active = codes "active"
status_value disabled = codes "disabled"
status_value archived = codes "archived"

pub data RolloutStrategy : Type 0 where
  random user_hash org_hash : RolloutStrategy

pub data OverrideScope : Type 0 where
  global org user : OverrideScope

pub record Percentage : Type 0 where
  pub numerator : ℕ
  pub denominator : ℕ

-- `n < percentage`
unfoldable pub below : ℕ → Percentage → Bool
below n p = ltb (n * p.denominator) p.numerator

pub record PercentageRolloutConfig : Type 0 where
  pub enabled : Bool
  pub percentage : Percentage
  pub strategy : RolloutStrategy
  pub seed : Option Text

pub record TargetingRule : Type 0 where
  pub attribute : Text
  pub operator : Text
  pub value : Value

pub record TargetingConfig : Type 0 where
  pub rules : List TargetingRule
  pub match_all : Bool

pub record FeatureFlagBase : Type 0 where
  pub key : Text
  pub name : Text
  pub description : Option Text
  pub value_type : FlagValueType
  pub default_value : Value
  pub enabled_value : Value
  pub tags : List Text
  pub metadata : Fields

is_number : Value → Bool
is_number (bool b) = true
is_number (num n) = true
is_number v = false

as_bool : Value → Value
unfolding is_truthy
as_bool (bool b) = bool b
as_bool v = bool (is_truthy v)

-- `to_text` is Python's `str`
as_str : (Value → Text) → Value → Value
as_str to_text (str s) = str s
as_str to_text v = str (to_text v)

-- `none` for the `ValueError`; a bool is an int
unfoldable pub validate_value_types : (Value → Text) → FeatureFlagBase → Option FeatureFlagBase
unfolding is_number as_bool as_str
validate_value_types to_text f = elim f.value_type [
  | boolean ↦ some (record f {
    default_value = as_bool f.default_value;
    enabled_value = as_bool f.enabled_value;
  })
  | number ↦ if is_number f.default_value && is_number f.enabled_value then some f else none
  | string ↦ some (record f {
    default_value = as_str to_text f.default_value;
    enabled_value = as_str to_text f.enabled_value;
  })
  | json ↦ some f
]

pub record FeatureFlagCreate : Type 0 where
  pub base : FeatureFlagBase
  pub enabled : Bool
  pub is_killswitch : Bool
  pub rollout : PercentageRolloutConfig
  pub targeting : Option TargetingConfig
  pub expires_at : Option ℕ

pub record FeatureFlag : Type 0 where
  pub base : FeatureFlagBase
  pub flag_id : Text
  pub org_id : Text
  pub enabled : Bool
  pub is_killswitch : Bool
  pub status : FlagStatus
  pub rollout : PercentageRolloutConfig
  pub targeting : Option TargetingConfig
  pub expires_at : Option ℕ
  pub created_at : ℕ
  pub updated_at : ℕ
  pub created_by : Option Text
  pub version : ℕ

pub record FeatureFlagOverrideCreate : Type 0 where
  pub flag_key : Text
  pub scope : OverrideScope
  pub target_id : Option Text
  pub value : Value
  pub enabled : Bool
  pub reason : Option Text
  pub expires_at : Option ℕ

-- `bool(x)` for an optional string
unfoldable pub is_given : Option Text → Bool
is_given none = false
is_given (some []) = false
is_given (some (c ∷ t)) = true

-- `none` for the `ValueError`
unfoldable pub validate_scope_target : FeatureFlagOverrideCreate → Option FeatureFlagOverrideCreate
unfolding is_given
validate_scope_target o = elim o.scope [
  | global ↦ some o
  | user ↦ if is_given o.target_id then some o else none
  | org ↦ if is_given o.target_id then none else some o
]

pub record FeatureFlagOverride : Type 0 where
  pub override_id : Text
  pub flag_id : Text
  pub flag_key : Text
  pub org_id : Text
  pub scope : OverrideScope
  pub target_id : Option Text
  pub value : Value
  pub enabled : Bool
  pub reason : Option Text
  pub expires_at : Option ℕ
  pub created_at : ℕ
  pub updated_at : ℕ
  pub created_by : Option Text

-- `attributes` is never read
pub record FlagEvaluationContext : Type 0 where
  pub user_id : Option Text
  pub org_id : Option Text
  pub attributes : Fields

pub record FlagEvaluationResult : Type 0 where
  pub flag_key : Text
  pub value : Value
  pub enabled : Bool
  pub source : Text
  pub reason : Text
  pub flag_id : Text
  pub override_id : Option Text
  pub evaluated_at : ℕ
