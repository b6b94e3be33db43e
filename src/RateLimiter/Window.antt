-- ===== src/RateLimiter/Window.antt =====
-- How many requests of a key the in-memory limiter admits in a window.
use open_langgraph_platform.Prelude.{
  ℕ, suc, ◌+◌, ◌-◌, ◌==◌, max, ◌&&◌, not, All, ◌≤◌, ◌<◌, ◌≡◌, refl, ap, ◌∙◌, true, false, ◌||◌,
  none, some, List, [], ◌∷◌, arith, Text, text_eq, text_eq_iff, text_eq_refl, leb, min,
  if◌then◌else◌, Bool-cases, inl, inr,
}
use open_langgraph_platform.Dict.{lookup, lookup-insert, IsUnique}
use open_langgraph_platform.RateLimiter.{
  InMemoryRateLimiter, Answer, cleaned, counted, check_and_increment,
}
use open_langgraph_platform.RateLimiter.Cleaning.{lookup-cleaned, check_and_increment-IsUnique}

-- One request: its key, limit, window and time.
pub record Call : Type 0 where
  pub key : Text
  pub limit : ℕ
  pub window : ℕ
  pub now : ℕ

abbrev asked : InMemoryRateLimiter → Call → InMemoryRateLimiter × Answer
asked l call = check_and_increment l call.key call.limit call.window call.now

-- How many of the requests with the key are admitted, and how many there are.
unfoldable pub admitted_for : Text → InMemoryRateLimiter → List Call → ℕ
admitted_for key l [] = 0
admitted_for key l (call ∷ calls) =
    let (l', answer) = check_and_increment l call.key call.limit call.window call.now in
    (if text_eq call.key key && answer.allowed then 1 else 0) + admitted_for key l' calls

abbrev pub calls_for : Text → List Call → ℕ
calls_for key [] = 0
calls_for key (call ∷ calls) =
    if text_eq call.key key then suc (calls_for key calls) else calls_for key calls

-- The requests come before the window ends, and those with the key have its limit and window.
abbrev pub Within : Text → ℕ → ℕ → ℕ → List Call → Type 0
Within key limit window start = All (λ call.
    (call.now < start + window)
    × ((not (text_eq call.key key) || (call.limit == limit && call.window == window)) ≡ true))

counted-open :
    (count start limit window now : ℕ)
    → now < start + window
    → ((counted (some (count, start)) limit window now).0 ≡ (count + 1, start))
      × ((counted (some (count, start)) limit window now).1.allowed ≡ leb (count + 1) limit)
unfolding counted
counted-open count start limit window now h = ground arith

module _ (l : InMemoryRateLimiter) (key : Text) (limit window count start : ℕ) (call : Call) where
  cleaned-entry :
      IsUnique l.counters
      → lookup key l.counters ≡ some (count, start)
      → window ≤ 3600
      → call.now < start + window
      → lookup key (cleaned l call.now) ≡ some (count, start)
  cleaned-entry u e w h = lookup-cleaned l call.now key u (rw e (ground arith)) ∙ e

  -- A request with the key is counted, and admitted up to the limit.
  asked-same :
      IsUnique l.counters
      → lookup key l.counters ≡ some (count, start)
      → window ≤ 3600
      → call.now < start + window
      → text_eq call.key key ≡ true
      → (not (text_eq call.key key) || (call.limit == limit && call.window == window)) ≡ true
      → (lookup key (asked l call).0.counters ≡ some (count + 1, start))
        × ((asked l call).1.allowed ≡ leb (count + 1) limit)
  unfolding check_and_increment
  asked-same u e w h p k =
      let found : lookup call.key (cleaned l call.now) ≡ some (count, start) =
        ap (λ j. lookup j (cleaned l call.now)) ((text_eq_iff call.key key).0 p)
        ∙ cleaned-entry u e w h in
      let limits : (call.limit ≡ limit) × (call.window ≡ window) = ground (arith, p, k) in
      let result =
        counted-open count start call.limit call.window call.now (omega (arith, limits.1)) in
      (
        lookup-insert call.key key _ (cleaned l call.now)
            ∙ rw p (
                ap some (ap (λ o. (counted o call.limit call.window call.now).0) found ∙ result.0)),
        ap (λ o. (counted o call.limit call.window call.now).1.allowed) found
            ∙ result.1
            ∙ ap (λ m. leb (count + 1) m) limits.0,
      )

  -- A request with another key leaves the entry as it is.
  asked-other :
      IsUnique l.counters
      → lookup key l.counters ≡ some (count, start)
      → window ≤ 3600
      → call.now < start + window
      → text_eq call.key key ≡ false
      → lookup key (asked l call).0.counters ≡ some (count, start)
  unfolding check_and_increment
  asked-other u e w h p =
      lookup-insert call.key key _ (cleaned l call.now) ∙ rw p (cleaned-entry u e w h)

-- In an open window the first requests of a key are admitted, up to the limit, and no later one.
admitted-open :
    (key : Text) (limit window count start : ℕ) (l : InMemoryRateLimiter) (calls : List Call)
    → IsUnique l.counters
    → lookup key l.counters ≡ some (count, start)
    → window ≤ 3600
    → Within key limit window start calls
    → admitted_for key l calls ≡ min (calls_for key calls) (limit - count)
unfolding admitted_for
admitted-open key limit window count start l [] u e w v = ground arith
admitted-open key limit window count start l (call ∷ calls) u e w v =
    let unique = check_and_increment-IsUnique l call.key call.limit call.window call.now u in
    elim (Bool-cases (text_eq call.key key)) [
      | inl p ↦
          let same = asked-same l key limit window count start call u e w v.0.0 p v.0.1 in
          let rest =
            admitted-open key limit window (count + 1) start (asked l call).0 calls unique same.0 w
              v.1 in
          rw p (rw same.1 (rw rest (ground arith)))
      | inr p ↦
          let rest =
            admitted-open key limit window count start (asked l call).0 calls unique
              (asked-other l key limit window count start call u e w v.0.0 p) w v.1 in
          rw p (omega (arith, rest))
    ]

first-asked :
    (l : InMemoryRateLimiter) (key : Text) (limit window start : ℕ)
    → lookup key (cleaned l start) ≡ none
    → (lookup key (check_and_increment l key limit window start).0.counters ≡ some (1, start))
      × ((check_and_increment l key limit window start).1.allowed ≡ true)
unfolding check_and_increment counted
first-asked l key limit window start e =
    (lookup-insert key key _ (cleaned l start) ∙ rw (text_eq_refl key) (rw e refl), rw e refl)

-- In the window that the first request of a key opens, the in-memory limiter admits the first requests
-- of the key up to its limit and no later one, whatever requests of other keys come between and also
-- where entries are cleaned up, for windows of up to an hour. The first request is admitted even
-- where the limit is 0.
pub window_admits :
    (key : Text) (limit window start : ℕ) (l : InMemoryRateLimiter) (calls : List Call)
    → IsUnique l.counters
    → lookup key (cleaned l start) ≡ none
    → window ≤ 3600
    → Within key limit window start calls
    → admitted_for key l (record { key = key; limit = limit; window = window; now = start } ∷ calls)
      ≡ max 1 (min (suc (calls_for key calls)) limit)
unfolding admitted_for
window_admits key limit window start l calls u e w v =
    let first = first-asked l key limit window start e in
    let rest =
      admitted-open key limit window 1 start (check_and_increment l key limit window start).0 calls
        (check_and_increment-IsUnique l key limit window start u) first.0 w v in
    rw (text_eq_refl key, first.1) (rw rest (ground arith))
