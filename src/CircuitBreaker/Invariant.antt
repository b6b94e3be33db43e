-- ===== src/CircuitBreaker/Invariant.antt =====
-- What holds of a circuit breaker between two calls.
use open_langgraph_platform.Prelude.{ℕ, ◌≤◌, ◌<◌, ◌≡◌, true, none, is_some, List, [], ◌∷◌, arith}
use open_langgraph_platform.CircuitBreaker.{
  CircuitBreaker, closed, opened, half_open, init, allow_request, record_success, record_failure,
  Event, request, success, failure, step, run,
}

pub record IsValid (c : CircuitBreaker) : Type 0 where
  pub threshold_pos : 1 ≤ c.failure_threshold
  pub max_calls_pos : 1 ≤ c.half_open_max_calls
  pub calls_capped : c.half_open_calls ≤ c.half_open_max_calls
  pub closed_below : c.state ≡ closed → c.failure_count < c.failure_threshold
  pub closed_no_time : c.state ≡ closed → c.opened_at ≡ none
  pub opened_full : c.state ≡ opened → c.failure_threshold ≤ c.failure_count
  pub opened_time : c.state ≡ opened → is_some c.opened_at ≡ true
  pub probing_used : c.state ≡ half_open → 1 ≤ c.half_open_calls

pub init-IsValid : (ft rt hm : ℕ) → IsValid (init ft rt hm)
unfolding init
init-IsValid ft rt hm = ground arith

module _ {c : CircuitBreaker} (v : IsValid c) where
  pub allow_request-IsValid : (now : ℕ) → IsValid (allow_request c now).0
  unfolding allow_request
  allow_request-IsValid now = ground arith

  pub record_success-IsValid : IsValid (record_success c)
  unfolding record_success
  record_success-IsValid = ground arith

  pub record_failure-IsValid : (now : ℕ) → IsValid (record_failure c now)
  unfolding record_failure
  record_failure-IsValid now = ground arith

step-IsValid : {c : CircuitBreaker} (e : Event) → IsValid c → IsValid (step c e)
unfolding step
step-IsValid (request now) v = allow_request-IsValid v now
step-IsValid success v = record_success-IsValid v
step-IsValid (failure now) v = record_failure-IsValid v now

run-IsValid : (c : CircuitBreaker) (es : List Event) → IsValid c → IsValid (run c es)
unfolding run
run-IsValid c [] v = v
run-IsValid c (e ∷ es) v = run-IsValid (step c e) es (step-IsValid e v)

-- Whatever the callers do, a new breaker keeps its invariant: the half-open calls stay within
-- their maximum, a closed breaker has fewer failures than the threshold and no opening time, and an
-- open one has at least the threshold's failures and an opening time.
pub reachable-IsValid : (ft rt hm : ℕ) (es : List Event) → IsValid (run (init ft rt hm) es)
reachable-IsValid ft rt hm es = run-IsValid (init ft rt hm) es (init-IsValid ft rt hm)
