-- ===== src/CircuitBreaker.antt =====
-- core/resilience.py, `CircuitBreaker`. A method that mutates the object returns the new record;
-- the value that the injected clock gives is an argument. Times are whole ticks of that clock.
pub mod Invariant
pub mod Traces
mod Examples
use open_langgraph_platform.Prelude.{
  ℕ, ◌+◌, max, Bool, true, false, Option, none, some, List, [], ◌∷◌, leb, if◌then◌else◌,
}

pub data CircuitState : Type 0 where
  closed opened half_open : CircuitState

pub record CircuitBreaker : Type 0 where
  pub failure_threshold : ℕ
  pub reset_timeout : ℕ
  pub half_open_max_calls : ℕ
  pub state : CircuitState
  pub failure_count : ℕ
  pub opened_at : Option ℕ
  pub half_open_calls : ℕ

-- `__init__`: the limits are at least 1
unfoldable pub init : ℕ → ℕ → ℕ → CircuitBreaker
init failure_threshold reset_timeout half_open_max_calls = record {
  failure_threshold = max 1 failure_threshold;
  reset_timeout = reset_timeout;
  half_open_max_calls = max 1 half_open_max_calls;
  state = closed;
  failure_count = 0;
  opened_at = none;
  half_open_calls = 0;
}

-- `self._opened_at is not None and now - self._opened_at >= self._reset_timeout`
abbrev pub reset_elapsed : CircuitBreaker → ℕ → Bool
reset_elapsed c now = elim c.opened_at [ none ↦ false | some t ↦ leb (t + c.reset_timeout) now ]

-- the second test of `allow_request`, in the state `HALF_OPEN`
take_slot : CircuitBreaker → CircuitBreaker × Bool
take_slot c =
    if leb c.half_open_max_calls c.half_open_calls
    then (c, false)
    else (record c { half_open_calls = c.half_open_calls + 1 }, true)

allow_in : CircuitState → CircuitBreaker → ℕ → CircuitBreaker × Bool
unfolding take_slot
allow_in closed c now = (c, true)
allow_in half_open c now = take_slot c
allow_in opened c now =
    if reset_elapsed c now
    then take_slot (record c { state = half_open; half_open_calls = 0 })
    else (c, false)

unfoldable pub allow_request : CircuitBreaker → ℕ → CircuitBreaker × Bool
unfolding allow_in
allow_request c now = allow_in c.state c now

unfoldable pub record_success : CircuitBreaker → CircuitBreaker
record_success c =
    let reset = record c { failure_count = 0 } in
    elim c.state [
      | closed ↦ reset
      | _ ↦ record reset { state = closed; opened_at = none; half_open_calls = 0 }
    ]

-- the part of `record_failure` behind the test for `HALF_OPEN`
count_failure : CircuitBreaker → ℕ → CircuitBreaker
count_failure c now =
    let counted = record c { failure_count = c.failure_count + 1 } in
    if leb c.failure_threshold (c.failure_count + 1)
    then record counted { state = opened; opened_at = some now }
    else counted

unfoldable pub record_failure : CircuitBreaker → ℕ → CircuitBreaker
unfolding count_failure
record_failure c now = elim c.state [
  | half_open ↦ record c {
    state = opened;
    opened_at = some now;
    failure_count = c.failure_threshold;
  }
  | _ ↦ count_failure c now
]

-- What callers do with a breaker, with the clock's value at each call.
pub data Event : Type 0 where
  request : ℕ → Event
  success : Event
  failure : ℕ → Event

unfoldable pub step : CircuitBreaker → Event → CircuitBreaker
unfolding allow_request record_success record_failure
step c (request now) = (allow_request c now).0
step c success = record_success c
step c (failure now) = record_failure c now

unfoldable pub run : CircuitBreaker → List Event → CircuitBreaker
run c [] = c
run c (e ∷ es) = run (step c e) es
