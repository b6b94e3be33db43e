-- ===== src/RateLimiter/Examples.antt =====
-- The limiters on concrete requests.
use open_langgraph_platform.Prelude.{
  ℕ, suc, ◌≡◌, refl, true, false, none, some, List, [], ◌∷◌, arith, Text, codes, text_eq, max, min,
}
use open_langgraph_platform.Dict.{lookup}
use open_langgraph_platform.RateLimiter.{InMemoryRateLimiter, RateLimiterManager, cleaned}
use open_langgraph_platform.RateLimiter.Window.{
  Call, Within, admitted_for, calls_for, window_admits,
}

abbrev limiter : InMemoryRateLimiter
limiter = record { counters = []; max_keys = 1 }

abbrev call : Text → ℕ → Call
call key now = record { key = key; limit = 2; window = 60; now = now }

abbrev calls : List Call
calls =
    call (codes "b") 101
    ∷ call (codes "a") 110
    ∷ call (codes "c") 120
    ∷ call (codes "a") 130
    ∷ call (codes "a") 159
    ∷ []

calls-Within : Within (codes "a") 2 60 100 calls
unfolding text_eq
calls-Within = ground arith

none_yet : lookup (codes "a") (cleaned limiter 100) ≡ none
unfolding lookup cleaned
none_yet = refl

window_admits_example :
    admitted_for (codes "a") limiter (call (codes "a") 100 ∷ calls)
    ≡ max 1 (min (suc (calls_for (codes "a") calls)) 2)
window_admits_example =
    window_admits (codes "a") 2 60 100 limiter calls tt none_yet (omega arith) calls-Within

abbrev manager : RateLimiterManager
manager = record {
  is_available = true;
  using_fallback = false;
  fallback_limiter = some limiter;
  fallback_skip = false;
}
