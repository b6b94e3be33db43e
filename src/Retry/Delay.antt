-- ===== src/Retry/Delay.antt =====
-- Bounds on the delay between two attempts.
use open_langgraph_platform.Prelude.{ℕ, ◌+◌, ◌-◌, ◌*◌, ◌≤◌, arith, leb, if◌then◌else◌}
use open_langgraph_platform.Retry.{RetryPolicy, scale, capped_delay, compute_backoff_delay}

sample_le : (random window : ℕ) → random ≤ 1000 → random * window * 2 ≤ window * 2000
sample_le random window h = grind arith

jittered_bounds :
    (delay jitter random : ℕ)
    → random ≤ 1000
    → let window = delay * jitter in
      let jittered =
        if leb jitter 0
        then delay * scale
        else delay * scale + random * window * 2 - window * 1000 in
      (delay * scale ≤ jittered + window * 1000) × (jittered ≤ delay * scale + window * 1000)
jittered_bounds delay jitter random h = ground (arith, sample_le random (delay * jitter) h)

-- A computed delay differs from the capped exponential delay by at most the jitter's share of it,
-- up or down, whatever the random sample.
pub backoff_bounds :
    (policy : RetryPolicy) (attempt random : ℕ)
    → random ≤ 1000
    → let window = capped_delay policy attempt * policy.jitter in
      let computed = compute_backoff_delay policy attempt random in
      (capped_delay policy attempt * scale ≤ computed + window * 1000)
      × (computed ≤ capped_delay policy attempt * scale + window * 1000)
unfolding compute_backoff_delay
backoff_bounds policy attempt random h =
    jittered_bounds (capped_delay policy attempt) policy.jitter random h
