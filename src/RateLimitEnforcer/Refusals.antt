-- ===== src/RateLimitEnforcer/Refusals.antt =====
-- When `check_rate_limit` refuses a request, and what a refusal leaves behind.
use open_langgraph_platform.Prelude.{
  ℕ, ◌+◌, ◌*◌, ◌≤◌, ◌<◌, ◌≡◌, refl, Bool, true, false, ◌&&◌, Option, none, some, List, ◌++◌, Text,
  codes, ltb, length, arith, Bool-cases, inl, inr,
}
use open_langgraph_platform.Dict.{lookup}
use open_langgraph_platform.RateLimitRules.{
  RateLimitRuleMatch, RateLimitAction, reject, throttle, log_only,
}
use open_langgraph_platform.RateLimitEnforcer.{
  Redis, serves, unavailable, raises, Store, Entry, sliding_window_check, window_step, trim, read,
}
use open_langgraph_platform.RateLimitEnforcer.Check.{
  CheckRequest, RateLimitHistory, check_burst_limit, burst_of, burst_part, decided, key_of,
  check_rule, check_rate_limit,
}

-- the entries of a key in its window
abbrev pub window_at : Store → Text → ℕ → ℕ → List Entry
window_at store key window_seconds now =
    trim (window_seconds * 1000) now (read now (lookup key store))

sliding_refuses :
    (redis : Redis) (store : Store) (key : Text) (window limit now : ℕ) (member : Text)
    → (sliding_window_check redis store key window limit now member).1.1 ≡ false
    → (redis ≡ serves) × (limit ≤ length (window_at store key window now))
unfolding sliding_window_check window_step
sliding_refuses serves store key window limit now member h = (refl, ground (arith, h))
sliding_refuses unavailable store key window limit now member h = cc
sliding_refuses raises store key window limit now member h = cc

-- What stands behind a refusal: the rule's own window, or its burst window after the first check.
pub data Full (store store1 : Store) (key : Text) (m : RateLimitRuleMatch) (now : ℕ) : Type 0 where
  window_full :
      m.requests_per_window ≤ length (window_at store key m.window_seconds now)
      → Full store store1 key m now
  burst_full :
      {limit window : ℕ}
      → burst_of m ≡ some (limit, window)
      → limit ≤ length (window_at store1 (key ++ codes ":burst") window now)
      → Full store store1 key m now

burst_refuses :
    (o : Option (ℕ × ℕ)) (redis : Redis) (store store1 : Store) (key : Text)
    (m : RateLimitRuleMatch) (now : ℕ) (member : Text)
    → burst_of m ≡ o
    → (burst_part o redis store1 key now member).1.0 ≡ false
    → (redis ≡ serves) × Full store store1 key m now
unfolding burst_part check_burst_limit
burst_refuses none redis store store1 key m now member e h = cc
burst_refuses (some (limit, window)) redis store store1 key m now member e h =
    let (up, full) =
      sliding_refuses redis store1 (key ++ codes ":burst") window limit now member h in
    (up, burst_full e full)

decided_refuses :
    (a : RateLimitAction) (b : Bool) → decided a b ≡ false → (a ≡ reject) × (b ≡ false)
unfolding decided
decided_refuses reject b h = (refl, h)
decided_refuses throttle b h = cc
decided_refuses log_only b h = cc

-- A request is refused only if Redis answers, its rule rejects, and the rule's window for the key or its
-- burst window is full: without a rule, with a rule that throttles or logs, and while Redis is missing
-- or raises, every request passes.
pub check_rate_limit_refuses :
    (redis : Redis) (store : Store) (history : List RateLimitHistory)
    (o : Option RateLimitRuleMatch) (q : CheckRequest)
    → (check_rate_limit redis (store, history) o q).1.allowed ≡ false
    → (m : RateLimitRuleMatch) × (o ≡ some m)
      × (redis ≡ serves)
      × (m.action ≡ reject)
      × Full store
          (sliding_window_check redis store
            (key_of m q)
            m.window_seconds
            m.requests_per_window
            q.now
            q.member).0
          (key_of m q)
          m
          q.now
unfolding check_rate_limit check_rule
check_rate_limit_refuses redis store history none q h = cc
check_rate_limit_refuses redis store history (some m) q h =
    let key = key_of m q in
    let (store1, main) =
      sliding_window_check redis store key m.window_seconds m.requests_per_window q.now q.member in
    let burst = (burst_part (burst_of m) redis store1 key q.now q.burst_member).1 in
    let (rejects, fails) = decided_refuses m.action (main.1 && burst.0) h in
    elim (Bool-cases main.1) [
      | inr p ↦
          let (up, full) =
            sliding_refuses redis store key m.window_seconds m.requests_per_window q.now q.member
              p in
          (m, refl, up, rejects, window_full full)
      | inl p ↦
          let (up, full) =
            burst_refuses (burst_of m) redis store store1 key m q.now q.burst_member refl
              (ground (arith, fails, p)) in
          (m, refl, up, rejects, full)
    ]

-- A request that only the burst window refuses still takes a place in the rule's own window: the check
-- answers that it is refused, and the count of that window is one more than before.
pub burst_refusal_counts :
    (store : Store) (history : List RateLimitHistory) (m : RateLimitRuleMatch) (q : CheckRequest)
    → m.action ≡ reject
    → length (window_at store (key_of m q) m.window_seconds q.now) < m.requests_per_window
    → (burst_part
        (burst_of m)
        serves
        (sliding_window_check serves store
          (key_of m q)
          m.window_seconds
          m.requests_per_window
          q.now
          q.member).0
        (key_of m q)
        q.now
        q.burst_member).1.0
      ≡ false
    → let r = (check_rate_limit serves (store, history) (some m) q).1 in
      (r.allowed ≡ false)
      × (r.current_count ≡ length (window_at store (key_of m q) m.window_seconds q.now) + 1)
unfolding check_rate_limit check_rule sliding_window_check window_step decided
burst_refusal_counts store history m q rejects room burst =
    let fits : ltb (length (window_at store (key_of m q) m.window_seconds q.now))
          m.requests_per_window
        ≡ true =
      ground (arith, room) in
    (rw (rejects, fits) (ground (arith, rw fits at burst)), rw fits refl)
