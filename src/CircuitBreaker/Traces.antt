-- ===== src/CircuitBreaker/Traces.antt =====
-- What a circuit breaker does over sequences of calls.
use open_langgraph_platform.Prelude.{
  ℕ, suc, ◌+◌, ◌≤◌, ◌<◌, ◌≡◌, refl, Bool, true, false, none, some, List, [], ◌∷◌, arith, All,
  length, if◌then◌else◌, leb,
}
use open_langgraph_platform.CircuitBreaker.{
  CircuitBreaker, CircuitState, closed, opened, half_open, allow_request, record_success,
  record_failure, Event, failure, step, run,
}
use open_langgraph_platform.CircuitBreaker.Invariant.{IsValid}

-- The answers that requests at the given times get, one after another, with the final breaker.
unfoldable pub ask : CircuitBreaker → List ℕ → CircuitBreaker × List Bool
ask c [] = (c, [])
ask c (now ∷ times) =
    let (c', answer) = allow_request c now in
    let (c'', answers) = ask c' times in (c'', answer ∷ answers)

abbrev pub admitted : List Bool → ℕ
admitted [] = 0
admitted (true ∷ answers) = suc (admitted answers)
admitted (false ∷ answers) = admitted answers

allow_request_early :
    (c : CircuitBreaker) (t now : ℕ)
    → c.state ≡ opened
    → c.opened_at ≡ some t
    → now < t + c.reset_timeout
    → allow_request c now ≡ (c, false)
unfolding allow_request
allow_request_early c t now s o h = ground arith

-- An open breaker refuses every request before its reset timeout has passed since it opened, and
-- is not changed by them.
pub open_refuses :
    (c : CircuitBreaker) (t : ℕ) (times : List ℕ)
    → c.state ≡ opened
    → c.opened_at ≡ some t
    → All (λ now. now < t + c.reset_timeout) times
    → ((ask c times).0 ≡ c) × (admitted (ask c times).1 ≡ 0)
unfolding ask
open_refuses c t [] s o h = (refl, refl)
open_refuses c t (now ∷ times) s o h =
    ground (arith, allow_request_early c t now s o h.0, open_refuses c t times s o h.1)

-- Used slots of a half-open breaker.
abbrev pub slots : CircuitState → ℕ → ℕ
slots half_open calls = calls
slots _ calls = 0

slots-allow_request :
    (c : CircuitBreaker) (now : ℕ)
    → (closed ≡ c.state → ⊥)
    → c.half_open_calls ≤ c.half_open_max_calls
    → slots c.state c.half_open_calls + (if (allow_request c now).1 then 1 else 0)
      ≤ slots (allow_request c now).0.state (allow_request c now).0.half_open_calls
unfolding allow_request
slots-allow_request c now s h = ground arith

keeps-allow_request :
    (c : CircuitBreaker) (now : ℕ)
    → (closed ≡ c.state → ⊥)
    → c.half_open_calls ≤ c.half_open_max_calls
    → (closed ≡ (allow_request c now).0.state → ⊥)
      × ((allow_request c now).0.half_open_calls ≤ (allow_request c now).0.half_open_max_calls)
      × ((allow_request c now).0.half_open_max_calls ≡ c.half_open_max_calls)
unfolding allow_request
keeps-allow_request c now s h = ground arith

probe_bound :
    (c : CircuitBreaker) (times : List ℕ)
    → (closed ≡ c.state → ⊥)
    → c.half_open_calls ≤ c.half_open_max_calls
    → slots c.state c.half_open_calls + admitted (ask c times).1 ≤ c.half_open_max_calls
unfolding ask
probe_bound c [] s h = ground arith
probe_bound c (now ∷ times) s h =
    let kept = keeps-allow_request c now s h in
    ground (
      arith,
      slots-allow_request c now s h,
      kept,
      probe_bound (allow_request c now).0 times kept.0 kept.1,
    )

-- From an open or half-open breaker, whatever the times, the requests that are admitted before a success
-- or a failure is recorded and the slots that are already taken are together at most
-- `half_open_max_calls`.
pub half_open_admits_at_most :
    (c : CircuitBreaker) (times : List ℕ)
    → IsValid c
    → (closed ≡ c.state → ⊥)
    → slots c.state c.half_open_calls + admitted (ask c times).1 ≤ c.half_open_max_calls
half_open_admits_at_most c times v s = probe_bound c times s v.calls_capped

allow_request_full :
    (c : CircuitBreaker) (now : ℕ)
    → c.state ≡ half_open
    → c.half_open_max_calls ≤ c.half_open_calls
    → allow_request c now ≡ (c, false)
unfolding allow_request
allow_request_full c now s h = ground arith

-- A half-open breaker whose slots are all taken refuses every later request, however late, until an
-- outcome is recorded: no timeout frees a slot whose caller never reports.
pub half_open_stuck :
    (c : CircuitBreaker) (times : List ℕ)
    → c.state ≡ half_open
    → c.half_open_max_calls ≤ c.half_open_calls
    → ((ask c times).0 ≡ c) × (admitted (ask c times).1 ≡ 0)
unfolding ask
half_open_stuck c [] s h = (refl, refl)
half_open_stuck c (now ∷ times) s h =
    ground (arith, allow_request_full c now s h, half_open_stuck c times s h)

abbrev pub failures : List ℕ → List Event
failures [] = []
failures (now ∷ times) = failure now ∷ failures times

fail_opened :
    (c : CircuitBreaker) (times : List ℕ)
    → c.state ≡ opened
    → c.failure_threshold ≤ c.failure_count
    → (run c (failures times)).state ≡ opened
unfolding run
fail_opened c [] s h = s
fail_opened c (now ∷ times) s h =
    fail_opened (step c (failure now)) times (unfold step in ground arith)
      (unfold step in ground arith)

record_failure_closed :
    (c : CircuitBreaker) (now : ℕ)
    → c.state ≡ closed
    → ((step c (failure now)).state
        ≡ (if leb c.failure_threshold (c.failure_count + 1) then opened else closed))
      × ((step c (failure now)).failure_count ≡ c.failure_count + 1)
      × ((step c (failure now)).failure_threshold ≡ c.failure_threshold)
unfolding step
record_failure_closed c now s = ground arith

trips :
    (c : CircuitBreaker) (times : List ℕ)
    → c.state ≡ closed
    → c.failure_count < c.failure_threshold
    → (run c (failures times)).state
      ≡ (if leb c.failure_threshold (c.failure_count + length times) then opened else closed)
unfolding run
trips c [] s h = ground arith
trips c (now ∷ times) s h =
    let fact = record_failure_closed c now s in
    ground (
      arith,
      fact,
      λ (p : c.failure_threshold ≤ c.failure_count + 1).
          fail_opened (step c (failure now)) times (ground arith) (ground arith),
      λ (p : c.failure_count + 1 < c.failure_threshold).
          trips (step c (failure now)) times (ground arith) (ground arith),
    )

-- A closed breaker that meets failures only is open exactly when they bring its count up to the
-- threshold, and closed before.
pub trips_at_threshold :
    (c : CircuitBreaker) (times : List ℕ)
    → IsValid c
    → c.state ≡ closed
    → (run c (failures times)).state
      ≡ (if leb c.failure_threshold (c.failure_count + length times) then opened else closed)
trips_at_threshold c times v s = trips c times s (v.closed_below s)

-- Once the reset timeout has passed, an open breaker admits a probe. If that succeeds the breaker
-- is closed with nothing counted; if it fails the breaker is open again from the failure on.
pub probe_decides :
    (c : CircuitBreaker) (t now later : ℕ)
    → IsValid c
    → c.state ≡ opened
    → c.opened_at ≡ some t
    → t + c.reset_timeout ≤ now
    → let (probing, answer) = allow_request c now in
      (answer ≡ true)
      × (record_success probing
          ≡ record c { state = closed; failure_count = 0; opened_at = none; half_open_calls = 0 })
      × ((record_failure probing later).state ≡ opened)
      × ((record_failure probing later).opened_at ≡ some later)
unfolding allow_request record_success record_failure
probe_decides c t now later v s o h = ground arith
