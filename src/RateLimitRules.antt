-- ===== src/RateLimitRules.antt =====
-- models/rate_limit_rules.py and services/rate_limit_rule_service.py: the rules of an organization,
-- and which one a request falls under. Times are numbers.
pub mod Glob
pub mod Service
pub mod Resolve
pub mod Chosen
pub mod Unmatched
mod Examples
use open_langgraph_platform.Prelude.{
  ℕ, ◌≡◌, Bool, true, false, ◌&&◌, ◌||◌, not, Option, none, some, List, [], ◌∷◌, Text, codes,
  text_eq, if◌then◌else◌, is_some,
}

pub data RateLimitTarget : Type 0 where
  global org user api_key endpoint : RateLimitTarget

pub data RateLimitWindow : Type 0 where
  second minute hour day : RateLimitWindow

unfoldable pub seconds : RateLimitWindow → ℕ
seconds second = 1
seconds minute = 60
seconds hour = 3600
seconds day = 86400

pub data RateLimitAction : Type 0 where
  reject throttle log_only : RateLimitAction

pub data RateLimitStatus : Type 0 where
  active disabled expired : RateLimitStatus

pub record RateLimitRuleBase : Type 0 where
  pub name : Text
  pub description : Option Text
  pub target_type : RateLimitTarget
  pub target_id : Option Text
  pub endpoint_pattern : Option Text
  pub requests_per_window : ℕ
  pub window_size : RateLimitWindow
  pub burst_limit : Option ℕ
  pub burst_window : Option RateLimitWindow
  pub action : RateLimitAction
  pub priority : ℕ

pub record RateLimitRuleCreate : Type 0 where
  pub base : RateLimitRuleBase
  pub enabled : Bool
  pub expires_at : Option ℕ

pub record RateLimitRule : Type 0 where
  pub base : RateLimitRuleBase
  pub rule_id : Text
  pub org_id : Text
  pub enabled : Bool
  pub status : RateLimitStatus
  pub expires_at : Option ℕ
  pub created_at : ℕ
  pub updated_at : ℕ
  pub created_by : Option Text

-- `bool(x)` for an optional string
unfoldable pub is_given : Option Text → Bool
is_given none = false
is_given (some []) = false
is_given (some (c ∷ t)) = true

-- the part of the validator that may raise
target_is_consistent : RateLimitRuleBase → Bool
unfolding is_given
target_is_consistent r = elim r.target_type [
  | global ↦ true
  | org ↦ true
  | user ↦ is_given r.target_id
  | api_key ↦ is_given r.target_id
  | endpoint ↦ is_given r.endpoint_pattern
]

with_burst_window : RateLimitRuleBase → RateLimitRuleBase
with_burst_window r =
    if is_some r.burst_limit && not (is_some r.burst_window)
    then record r { burst_window = some second }
    else r

-- `none` for the `ValueError`
unfoldable pub validate_target_consistency : RateLimitRuleBase → Option RateLimitRuleBase
unfolding target_is_consistent with_burst_window
validate_target_consistency r = if target_is_consistent r then some (with_burst_window r) else none

pub record RateLimitRuleMatch : Type 0 where
  pub rule_id : Text
  pub rule_name : Text
  pub target_type : RateLimitTarget
  pub requests_per_window : ℕ
  pub window_size : RateLimitWindow
  pub window_seconds : ℕ
  pub burst_limit : Option ℕ
  pub burst_window_seconds : Option ℕ
  pub action : RateLimitAction
  pub priority : ℕ

unfoldable pub from_rule : RateLimitRule → RateLimitRuleMatch
unfolding seconds
from_rule rule = record {
  rule_id = rule.rule_id;
  rule_name = rule.base.name;
  target_type = rule.base.target_type;
  requests_per_window = rule.base.requests_per_window;
  window_size = rule.base.window_size;
  window_seconds = seconds rule.base.window_size;
  burst_limit = rule.base.burst_limit;
  burst_window_seconds = elim rule.base.burst_window [ none ↦ none | some w ↦ some (seconds w) ];
  action = rule.base.action;
  priority = rule.base.priority;
}
