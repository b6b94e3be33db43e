-- ===== src/RateLimiter/Failure.antt =====
-- What the manager answers where Redis does not.
use open_langgraph_platform.Prelude.{
  ℕ, ◌≡◌, Bool, true, false, Option, none, arith, Text, leb, or_else, if◌then◌else◌,
}
use open_langgraph_platform.RateLimiter.{RateLimiterManager, increment_counter, check_limit}

-- A manager that counts in Redis admits a request exactly if the new count is within the limit, where
-- a count that Redis does not give is taken for 0; it never consults its fallback limiter.
pub check_limit-redis :
    (m : RateLimiterManager) (cache_available : Bool) (reply : Option ℕ) (key : Text)
    → (limit window now : ℕ) → m.is_available ≡ true
    → m.using_fallback ≡ false
    → let (m', answer) = check_limit m cache_available reply key limit window now in
      (m' ≡ m) × (answer.allowed ≡ leb (if cache_available then or_else reply 0 else 0) limit)
unfolding check_limit increment_counter
check_limit-redis m cache_available reply key limit window now a f = ground arith

-- A manager that is not using its fallback limiter admits every request while Redis does not answer,
-- whatever the limit is and whether it has a fallback limiter, and counts none of them.
pub check_limit_fails_open :
    (m : RateLimiterManager) (cache_available : Bool) (key : Text) (limit window now : ℕ)
    → m.using_fallback ≡ false
    → let (m', answer) = check_limit m cache_available none key limit window now in
      (m' ≡ m) × (answer.allowed ≡ true)
unfolding check_limit increment_counter
check_limit_fails_open m cache_available key limit window now f = ground arith
