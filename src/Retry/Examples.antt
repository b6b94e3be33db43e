-- ===== src/Retry/Examples.antt =====
-- Retries on a concrete operation.
use open_langgraph_platform.Prelude.{ℕ, ◌*◌, ◌≡◌, refl, Bool, ◌==◌, if◌then◌else◌}
use open_langgraph_platform.Retry.{
  RetryPolicy, scale, compute_backoff_delay, Outcome, returned, raised, retry_async,
}

abbrev policy : RetryPolicy
policy = record { max_attempts = 3; base_delay = 500; max_delay = 1500; jitter = 100 }

-- fails twice with a retryable error
abbrev flaky : ℕ → Outcome ℕ ℕ
flaky n = if n == 3 then returned n else raised 503

abbrev retryable : ℕ → Bool
retryable e = e == 503

flaky_test : (retry_async flaky retryable (λ n. 500) policy).0 ≡ returned 3
unfolding retry_async compute_backoff_delay
flaky_test = refl

delay_test : compute_backoff_delay policy 3 0 ≡ 1350 * scale
unfolding compute_backoff_delay
delay_test = refl
