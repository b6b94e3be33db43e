-- ===== src/Retry.antt =====
-- core/resilience.py, `RetryPolicy`, `_compute_backoff_delay` and `retry_async`. Durations are whole
-- milliseconds and the jitter is in thousandths, as is the sample of `random.random()`; a delay is
-- then exact in millionths of a millisecond. The operation is a function from the attempt's number
-- to its outcome.
pub mod Delay
pub mod Attempts
mod Examples
use open_langgraph_platform.Prelude.{
  ℕ, zero, suc, ◌+◌, ◌-◌, ◌*◌, ◌^◌, min, max, Bool, true, false, List, [], ◌∷◌, leb, if◌then◌else◌,
}

pub record RetryPolicy : Type 0 where
  pub max_attempts : ℕ
  pub base_delay : ℕ
  pub max_delay : ℕ
  pub jitter : ℕ

-- the scale of a computed delay
abbrev pub scale : ℕ
scale = 1_000_000

-- `delay` before the jitter
unfoldable pub capped_delay : RetryPolicy → ℕ → ℕ
capped_delay policy attempt = min policy.max_delay (policy.base_delay * 2 ^ (attempt - 1))

-- `max(0.0, delay - jitter_window + random.random() * jitter_window * 2)`: the sum comes before the
-- difference, so that `-` stops at 0 exactly where `max` does
unfoldable pub compute_backoff_delay : RetryPolicy → ℕ → ℕ → ℕ
unfolding capped_delay
compute_backoff_delay policy attempt random =
    let delay = capped_delay policy attempt in
    let jitter_window = delay * policy.jitter in
    if leb policy.jitter 0
    then delay * scale
    else delay * scale + random * jitter_window * 2 - jitter_window * 1000

pub data Outcome {ℓ} (A E : Type ℓ) : Type ℓ where
  returned : A → Outcome A E
  raised : E → Outcome A E

-- What `on_retry` and `sleep` are called with.
pub record Sleep {ℓ} (E : Type ℓ) : Type ℓ where
  pub cause : E
  pub attempt : ℕ
  pub delay : ℕ

-- What follows an attempt's outcome where rounds are left: the end, or a sleep and then `rest`.
settle {ℓ} :
    {A E : Type ℓ} (is_retryable : E → Bool)
    → (E → Sleep E)
    → Outcome A E
    → Outcome A E × List (Sleep E)
    → Outcome A E × List (Sleep E)
settle is_retryable sleep (returned a) rest = (returned a, [])
settle is_retryable sleep (raised e) rest =
    if is_retryable e then (rest.0, sleep e ∷ rest.1) else (raised e, [])

module _ {ℓ} {A E : Type ℓ} (operation : ℕ → Outcome A E) (is_retryable : E → Bool) where
  module _ (random : ℕ → ℕ) (policy : RetryPolicy) where
    abbrev pub sleep_after : ℕ → E → Sleep E
    sleep_after attempt e = record {
      cause = e;
      attempt = attempt;
      delay = compute_backoff_delay policy attempt (random attempt);
    }

    -- The loop from one attempt on, with the rounds left behind it: `attempt >= attempts` is that
    -- none is left. The result comes with the retries that were made.
    unfoldable pub retry_from : ℕ → ℕ → Outcome A E × List (Sleep E)
    unfolding settle
    retry_from zero attempt = (operation attempt, [])
    retry_from (suc left) attempt =
        let rest = retry_from left (suc attempt) in
        settle is_retryable (sleep_after attempt) (operation attempt) rest

    unfoldable pub retry_async : Outcome A E × List (Sleep E)
    unfolding retry_from
    retry_async = retry_from (max 1 policy.max_attempts - 1) 1
