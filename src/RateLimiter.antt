-- ===== src/RateLimiter.antt =====
-- core/rate_limiter.py: `InMemoryRateLimiter`, which counts requests per key in fixed windows, and
-- `RateLimiterManager`, which counts in Redis and falls back to it. Times are whole seconds. What Redis
-- answers to the increment of a counter is an argument: the new count, or `none` for an exception or a
-- missing client.
pub mod Cleaning
pub mod Window
pub mod Failure
mod Examples
use open_langgraph_platform.Prelude.{
  ℕ, zero, suc, ◌+◌, ◌-◌, ◌/◌, Bool, true, false, ◌&&◌, not, Option, none, some, List, [], ◌∷◌,
  Text, length, take, ltb, leb, if◌then◌else◌, or_else,
}
use open_langgraph_platform.Prelude.Int.{ℤ, pos, negsuc}
use open_langgraph_platform.Dict.{Dict, lookup, insert, remove}

-- `_counters` maps a key to its count and the start of its window.
pub record InMemoryRateLimiter : Type 0 where
  pub counters : Dict (ℕ × ℕ)
  pub max_keys : ℕ

-- `allowed`, `remaining` and `reset_at`
pub record Answer : Type 0 where
  pub allowed : Bool
  pub remaining : ℤ
  pub reset_at : ℕ

unfoldable pub init : ℕ → InMemoryRateLimiter
init max_keys = record { counters = []; max_keys = max_keys }

-- `now - start > 3600`
abbrev pub expired : ℕ → ℕ → Bool
expired now start = ltb (start + 3600) now

expired_keys : ℕ → Dict (ℕ × ℕ) → List Text
expired_keys now [] = []
expired_keys now ((key, entry) ∷ counters) =
    let rest = expired_keys now counters in if expired now entry.1 then key ∷ rest else rest

remove_keys : List Text → Dict (ℕ × ℕ) → Dict (ℕ × ℕ)
remove_keys [] counters = counters
remove_keys (key ∷ keys) counters = remove_keys keys (remove key counters)

-- `_cleanup_expired`: at most half of the entries go
unfoldable pub cleanup_expired : ℕ → Dict (ℕ × ℕ) → Dict (ℕ × ℕ)
unfolding expired_keys remove_keys
cleanup_expired now counters =
    remove_keys (take (length counters / 2) (expired_keys now counters)) counters

-- `limit - 1`
abbrev less_one : ℕ → ℤ
less_one zero = negsuc 0
less_one (suc n) = pos n

-- what is written for the key, and the answer, by the entry that was found
counted : Option (ℕ × ℕ) → ℕ → ℕ → ℕ → (ℕ × ℕ) × Answer
counted none limit window now =
    ((1, now), record { allowed = true; remaining = less_one limit; reset_at = now + window })
counted (some (count, start)) limit window now =
    if leb (start + window) now
    then ((1, now), record { allowed = true; remaining = less_one limit; reset_at = now + window })
    else (
      (count + 1, start),
      record {
        allowed = leb (count + 1) limit;
        remaining = pos (limit - (count + 1));
        reset_at = start + window;
      },
    )

-- the clean-up that comes first when there are too many keys
unfoldable pub cleaned : InMemoryRateLimiter → ℕ → Dict (ℕ × ℕ)
unfolding cleanup_expired
cleaned l now =
    if ltb l.max_keys (length l.counters) then cleanup_expired now l.counters else l.counters

unfoldable pub check_and_increment :
    InMemoryRateLimiter → Text → ℕ → ℕ → ℕ → InMemoryRateLimiter × Answer
unfolding cleaned counted
check_and_increment l key limit window now =
    let counters = cleaned l now in
    let (entry, answer) = counted (lookup key counters) limit window now in
    (record l { counters = insert key entry counters }, answer)

unfoldable pub reset : InMemoryRateLimiter → InMemoryRateLimiter
reset l = record l { counters = [] }

pub record RateLimiterManager : Type 0 where
  pub is_available : Bool
  pub using_fallback : Bool
  pub fallback_limiter : Option InMemoryRateLimiter
  pub fallback_skip : Bool

-- `initialize`: `enabled` and `slowapi` are whether the feature and the package are there, and
-- `limiter` whether the Redis limiter could be made.
unfoldable pub initialize : RateLimiterManager → Bool → Bool → Bool → Bool → RateLimiterManager
unfolding init
initialize m enabled slowapi redis limiter =
    if not (enabled && slowapi)
    then m
    else if not redis
    then (if m.fallback_skip then m else record m {
      fallback_limiter = some (init 10000);
      using_fallback = true;
      is_available = true;
    })
    else if limiter
    then record m { is_available = true; fallback_limiter = some (init 10000) }
    else record m { is_available = false }

-- `_increment_counter`: it answers 0 where Redis does not answer, and never raises
unfoldable pub increment_counter : Bool → Option ℕ → Option ℕ
increment_counter cache_available reply = if cache_available then some (or_else reply 0) else some 0

-- the fallback limiter, if there is one
fall_back :
    Option InMemoryRateLimiter → RateLimiterManager → Text → ℕ → ℕ → ℕ → RateLimiterManager × Answer
fall_back none m key limit window now =
    if m.fallback_skip
    then (m, record { allowed = true; remaining = pos limit; reset_at = now + window })
    else (m, record { allowed = false; remaining = pos 0; reset_at = now + window })
fall_back (some l) m key limit window now =
    let (l', answer) = check_and_increment l key limit window now in
    (record m { fallback_limiter = some l' }, answer)

-- the `try` of `check_limit`
redis_answer : Option ℕ → RateLimiterManager → Text → ℕ → ℕ → ℕ → RateLimiterManager × Answer
unfolding fall_back
redis_answer none m key limit window now = fall_back m.fallback_limiter m key limit window now
redis_answer (some current) m key limit window now = (
  m,
  record {
    allowed = leb current limit;
    remaining = pos (limit - current);
    reset_at = now + window;
  },
)

has_fallback : Option InMemoryRateLimiter → Bool
has_fallback none = false
has_fallback (some l) = true

unfoldable pub check_limit :
    RateLimiterManager → Bool → Option ℕ → Text → ℕ → ℕ → ℕ → RateLimiterManager × Answer
unfolding has_fallback fall_back redis_answer
check_limit m cache_available reply key limit window now =
    if not m.is_available
    then (m, record { allowed = true; remaining = pos limit; reset_at = now + window })
    else if m.using_fallback && has_fallback m.fallback_limiter
    then fall_back m.fallback_limiter m key limit window now
    else redis_answer (increment_counter cache_available reply) m key limit window now

-- `close`: the fallback limiter is reset and dropped
unfoldable pub close : RateLimiterManager → RateLimiterManager
close m = record m { is_available = false; fallback_limiter = none; using_fallback = false }

-- `get_usage`: 0 where Redis does not answer or has no counter
unfoldable pub get_usage : Bool → Option (Option ℕ) → ℕ
get_usage cache_available reply = if cache_available then or_else (or_else reply none) 0 else 0

positive : ℤ → ℤ
positive (pos (suc n)) = pos (suc n)
positive n = negsuc 0

-- `get_ttl`: -1 where Redis does not answer or gives no positive time
unfoldable pub get_ttl : Bool → Option ℤ → ℤ
unfolding positive
get_ttl cache_available reply =
    if cache_available then positive (or_else reply (negsuc 0)) else negsuc 0

-- `reset_limit`: whether the counter was deleted
unfoldable pub reset_limit : Bool → Bool → Bool
reset_limit cache_available deleted = cache_available && deleted
