-- ===== src/CircuitBreaker/Examples.antt =====
-- A circuit breaker on concrete calls.
use open_langgraph_platform.Prelude.{◌+◌, ◌≤◌, ◌≡◌, refl, some, [], ◌∷◌, arith}
use open_langgraph_platform.CircuitBreaker.{
  CircuitBreaker, opened, half_open, init, request, failure, step, run,
}
use open_langgraph_platform.CircuitBreaker.Invariant.{IsValid, reachable-IsValid}
use open_langgraph_platform.CircuitBreaker.Traces.{slots, ask, admitted, half_open_admits_at_most}

-- three failures, a reset after 30 ticks, one probe
abbrev fresh : CircuitBreaker
fresh = init 3 30 1

abbrev tripped : CircuitBreaker
tripped = record {
  failure_threshold = 3;
  reset_timeout = 30;
  half_open_max_calls = 1;
  state = opened;
  failure_count = 3;
  opened_at = some 7;
  half_open_calls = 0;
}

abbrev probing : CircuitBreaker
probing = record tripped { state = half_open; half_open_calls = 1 }

tripped-IsValid : IsValid tripped
tripped-IsValid = ground arith

run_test : run fresh (failure 5 ∷ failure 6 ∷ failure 7 ∷ []) ≡ tripped
unfolding run init step
run_test = refl

probe_test : run tripped (request 36 ∷ request 37 ∷ request 40 ∷ []) ≡ probing
unfolding run step
probe_test = refl

reachable-IsValid_example :
    IsValid (run fresh (failure 5 ∷ failure 6 ∷ failure 7 ∷ request 40 ∷ failure 41 ∷ []))
reachable-IsValid_example =
    reachable-IsValid 3 30 1 (failure 5 ∷ failure 6 ∷ failure 7 ∷ request 40 ∷ failure 41 ∷ [])

half_open_admits_at_most_example :
    slots tripped.state tripped.half_open_calls + admitted (ask tripped (8 ∷ 40 ∷ 41 ∷ 99 ∷ [])).1
    ≤ 1
half_open_admits_at_most_example =
    half_open_admits_at_most tripped (8 ∷ 40 ∷ 41 ∷ 99 ∷ []) tripped-IsValid (ground arith)
