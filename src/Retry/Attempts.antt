-- ===== src/Retry/Attempts.antt =====
-- How often the operation is tried, and with what result.
use open_langgraph_platform.Prelude.{
  ℕ, zero, suc, ◌+◌, ◌-◌, max, ◌≡◌, inl, inr, refl, Bool, true, false, List, arith, length,
  Bool-cases,
}
use open_langgraph_platform.Retry.{
  RetryPolicy, Outcome, returned, raised, Sleep, settle, sleep_after, retry_from, retry_async,
}

module _ {ℓ} {A E : Type ℓ} (operation : ℕ → Outcome A E) (is_retryable : E → Bool) where
  -- The `n` attempts from `first` on all fail with a retryable error.
  abbrev pub AllRetryable : ℕ → ℕ → Type ℓ
  AllRetryable first zero = Unit
  AllRetryable first (suc n) =
      ((e : E) × (operation first ≡ raised e) × (is_retryable e ≡ true))
      × AllRetryable (suc first) n

  -- Why the loop stops with an outcome while `left` attempts remain.
  abbrev pub StopsAt : Outcome A E → ℕ → Type 0
  StopsAt (returned a) left = Unit
  StopsAt (raised e) zero = Unit
  StopsAt (raised e) (suc left) = is_retryable e ≡ false

  -- A run of the loop from the attempt `first`, with `left` attempts allowed behind it.
  pub record Ran (first left : ℕ) (run : Outcome A E × List (Sleep E)) : Type ℓ where
    pub retries : ℕ
    pub unused : ℕ
    pub counted : retries + unused ≡ left
    pub before : AllRetryable first retries
    pub outcome : run.0 ≡ operation (retries + first)
    pub slept : length run.1 ≡ retries
    pub stops : StopsAt run.0 unused

  StopsAt-last : (o : Outcome A E) → StopsAt o 0
  StopsAt-last (returned a) = tt
  StopsAt-last (raised e) = tt

  module _ (random : ℕ → ℕ) (policy : RetryPolicy) where
    settle-Ran :
        (first left : ℕ) (o : Outcome A E) {rest : Outcome A E × List (Sleep E)}
        → operation first ≡ o
        → Ran (suc first) left rest
        → Ran first
            (suc left)
            (settle is_retryable (sleep_after operation is_retryable random policy first) o rest)
    unfolding settle
    settle-Ran first left (returned a) e r = record {
      retries = 0;
      unused = suc left;
      counted = omega arith;
      before = tt;
      outcome = ground arith;
      slept = refl;
      stops = tt;
    }
    settle-Ran first left (raised x) e r = elim (Bool-cases (is_retryable x)) [
      | inl again ↦ rw again (record {
        retries = suc r.retries;
        unused = r.unused;
        counted = omega arith;
        before = ((x, e, again), r.before);
        outcome = ground (arith, r.outcome);
        slept = ground arith;
        stops = r.stops;
      })
      | inr final ↦ rw final (record {
        retries = 0;
        unused = suc left;
        counted = omega arith;
        before = tt;
        outcome = ground arith;
        slept = refl;
        stops = final;
      })
    ]

    retry_from-Ran :
        (left first : ℕ)
        → Ran first left (retry_from operation is_retryable random policy left first)
    unfolding retry_from
    retry_from-Ran zero first = record {
      retries = 0;
      unused = 0;
      counted = omega arith;
      before = tt;
      outcome = ground arith;
      slept = refl;
      stops = StopsAt-last (operation first);
    }
    retry_from-Ran (suc left) first =
        settle-Ran first left (operation first) refl (retry_from-Ran left (suc first))

    -- Every run of `retry_async` ends after some number of retries: each attempt before the last
    -- failed with a retryable error, the result is the last attempt's outcome, one delay was slept
    -- for each retry, at most `max(1, max_attempts)` attempts were made, and an error is the result
    -- only if it is not retryable or that many attempts were made.
    pub retry_async-Ran :
        Ran 1 (max 1 policy.max_attempts - 1) (retry_async operation is_retryable random policy)
    unfolding retry_async
    retry_async-Ran = retry_from-Ran (max 1 policy.max_attempts - 1) 1
