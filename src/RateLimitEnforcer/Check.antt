-- ===== src/RateLimitEnforcer/Check.antt =====
-- `check_rate_limit` and what callers make of its result: the resolved rule, the window of its key, the
-- burst window, and the action of the rule. Times are milliseconds, and a result's are seconds.
use open_langgraph_platform.Prelude.{
  ℕ, zero, suc, ◌+◌, ◌-◌, ◌/◌, Bool, true, false, ◌&&◌, Option, none, some, List, [], ◌∷◌, ◌++◌,
  Text, codes, if◌then◌else◌, min,
}
use open_langgraph_platform.RateLimitRules.{
  RateLimitRuleMatch, RateLimitTarget, user, api_key, endpoint, RateLimitAction, reject, throttle,
  log_only,
}
use open_langgraph_platform.RateLimitRules.Service.{target_eq}
use open_langgraph_platform.RateLimitEnforcer.{Redis, Store, build_redis_key, sliding_window_check}

pub record RateLimitCheckResult : Type 0 where
  pub allowed : Bool
  pub matched_rule : Option RateLimitRuleMatch
  pub current_count : ℕ
  pub limit : ℕ
  pub remaining : ℕ
  pub reset_at : ℕ
  pub retry_after : Option ℕ
  pub burst_remaining : Option ℕ

-- `matched_rule.burst_limit and matched_rule.burst_window_seconds`
unfoldable pub burst_of : RateLimitRuleMatch → Option (ℕ × ℕ)
burst_of m = elim m.burst_limit [
  | none ↦ none
  | some zero ↦ none
  | some (suc n) ↦ elim m.burst_window_seconds [
    | none ↦ none
    | some zero ↦ none
    | some (suc w) ↦ some (suc n, suc w)
  ]
]

-- `max(0, burst_limit - count)` is the subtraction of ℕ
unfoldable pub check_burst_limit :
    Redis → Store → Text → ℕ → ℕ → ℕ → Text → Store × (ℕ × (Bool × ℕ))
unfolding sliding_window_check
check_burst_limit redis store key burst_limit burst_window_seconds now member =
    let (store', answer) =
      sliding_window_check redis store (key ++ codes ":burst") burst_window_seconds burst_limit now
        member in
    (store', (answer.0, (answer.1, burst_limit - answer.0)))

unfoldable pub burst_part :
    Option (ℕ × ℕ) → Redis → Store → Text → ℕ → Text → Store × (Bool × Option ℕ)
unfolding check_burst_limit
burst_part none redis store key now member = (store, (true, none))
burst_part (some (limit, window)) redis store key now member =
    let (store', answer) = check_burst_limit redis store key limit window now member in
    (store', (answer.1.0, some answer.1.1))

-- A refused request passes if the rule throttles or only logs.
unfoldable pub decided : RateLimitAction → Bool → Bool
decided reject allowed = allowed
decided throttle allowed = true
decided log_only allowed = true

action_taken : RateLimitAction → Bool → Option Text
action_taken action true = none
action_taken reject false = some (codes "rejected")
action_taken throttle false = some (codes "throttled")
action_taken log_only false = some (codes "logged")

-- a row of rate_limit_history, in part
pub record RateLimitHistory : Type 0 where
  pub rule_id : Text
  pub allowed : Bool
  pub current_count : ℕ
  pub limit_value : ℕ
  pub action : Option Text

-- the arguments of the request, and the members that it draws
pub record CheckRequest : Type 0 where
  pub org_id : Text
  pub path : Text
  pub user_id : Option Text
  pub api_key_id : Option Text
  pub now : ℕ
  pub member : Text
  pub burst_member : Text

if_target : RateLimitRuleMatch → RateLimitTarget → Option Text → Option Text
unfolding target_eq
if_target m t value = if target_eq m.target_type t then value else none

unfoldable pub key_of : RateLimitRuleMatch → CheckRequest → Text
unfolding build_redis_key if_target
key_of m q =
    build_redis_key m.rule_id q.org_id (if_target m endpoint (some q.path))
      (if_target m user q.user_id) (if_target m api_key q.api_key_id)

no_limit : CheckRequest → RateLimitCheckResult
no_limit q = record {
  allowed = true;
  matched_rule = none;
  current_count = 0;
  limit = 0;
  remaining = 0;
  reset_at = q.now / 1000 + 3600;
  retry_after = none;
  burst_remaining = none;
}

-- The state is the Redis store and the history of checks.
unfoldable pub check_rule :
    Redis
    → Store × List RateLimitHistory
    → RateLimitRuleMatch
    → CheckRequest
    → (Store × List RateLimitHistory) × RateLimitCheckResult
unfolding key_of sliding_window_check burst_part burst_of decided action_taken
check_rule redis (store, history) m q =
    let key = key_of m q in
    let (store1, main) =
      sliding_window_check redis store key m.window_seconds m.requests_per_window q.now q.member in
    let (store2, burst) = burst_part (burst_of m) redis store1 key q.now q.burst_member in
    let passes = main.1 && burst.0 in
    let allowed = decided m.action passes in
    (
      (
        store2,
        history
            ++ record {
              rule_id = m.rule_id;
              allowed = allowed;
              current_count = main.0;
              limit_value = m.requests_per_window;
              action = action_taken m.action passes;
            }
              ∷ [],
      ),
      record {
        allowed = allowed;
        matched_rule = some m;
        current_count = main.0;
        limit = m.requests_per_window;
        remaining = m.requests_per_window - main.0;
        reset_at = q.now / 1000 + m.window_seconds;
        retry_after = if passes then none else some (min m.window_seconds 60);
        burst_remaining = burst.1;
      },
    )

-- `check_rate_limit`, with the answer of `resolve_rule`
unfoldable pub check_rate_limit :
    Redis
    → Store × List RateLimitHistory
    → Option RateLimitRuleMatch
    → CheckRequest
    → (Store × List RateLimitHistory) × RateLimitCheckResult
unfolding check_rule no_limit
check_rate_limit redis s none q = (s, no_limit q)
check_rate_limit redis s (some m) q = check_rule redis s m q
