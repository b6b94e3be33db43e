-- ===== src/RateLimitEnforcer/Sliding.antt =====
-- The sliding window against an ideal limiter that forgets nothing and expires nothing.
pub mod Refine
use open_langgraph_platform.Prelude.{
  ℕ, zero, suc, ◌+◌, ◌*◌, ◌≤◌, ◌<◌, ◌≡◌, refl, Bool, true, false, ◌||◌, not, Option, none, some,
  List, [], ◌∷◌, ◌++◌, Text, text_eq, text_eq_refl, if◌then◌else◌, ltb, leb, filter, length, any,
  All, arith, Bool-cases, inl, inr, length-append, filter-append, ap, ◌∙◌, sym,
}
use open_langgraph_platform.Dict.{Dict, lookup, insert, lookup-insert}
use open_langgraph_platform.RateLimitEnforcer.{
  Entry, Zset, Store, read, in_window, trim, zadd, kept, window_step, sliding_window_check, serves,
}

pub record Call : Type 0 where
  pub key : Text
  pub now : ℕ
  pub member : Text

abbrev pub Histories : Type 0
Histories = Text → List Entry

-- how many entries the window at `now` holds
abbrev pub counted : ℕ → ℕ → List Entry → ℕ
counted window_ms now entries = length (filter (in_window window_ms now) entries)

abbrev pub span : (Text → ℕ) → Text → ℕ
span window_of key = window_of key * 1000

-- Each key has one window and one limit: those of its rule.
module _ (window_of limit_of : Text → ℕ) where
  -- the answers of the enforcer to a sequence of checks
  unfoldable pub serve : Store → List Call → List (ℕ × Bool)
  unfolding sliding_window_check
  serve store [] = []
  serve store (c ∷ calls) =
      let (store', answer) =
        sliding_window_check serves store c.key (window_of c.key) (limit_of c.key) c.now c.member in
      answer ∷ serve store' calls

  -- The specification: every admission of a key is remembered, the latest first, and a request is
  -- admitted if the window that ends now holds fewer than `limit` of them.
  unfoldable pub ideal_step : Histories → Call → Histories × (ℕ × Bool)
  ideal_step h c =
      let count = counted (span window_of c.key) c.now (h c.key) in
      if ltb count (limit_of c.key)
      then (λ k. if text_eq c.key k then (c.now, c.member) ∷ h c.key else h k, (count + 1, true))
      else (h, (count, false))

  unfoldable pub ideal_serve : Histories → List Call → List (ℕ × Bool)
  unfolding ideal_step
  ideal_serve h [] = []
  ideal_serve h (c ∷ calls) = let (h', answer) = ideal_step h c in answer ∷ ideal_serve h' calls

-- What the sorted set of a key says of its history from the time `t` on: the windows that end then
-- hold as many entries, and the key does not expire before its entries have left the window.
unfoldable pub Tracks : ℕ → ℕ → Option Zset → List Entry → Type 0
Tracks w t none h = (n : ℕ) → t ≤ n → counted w n h ≡ 0
Tracks w t (some z) h =
    ((n : ℕ) → t ≤ n → counted w n z.members ≡ counted w n h)
    × All (λ e. (e.0 ≤ t) × (e.0 + w ≤ z.expires_at)) z.members

counted_out :
    (w x t n : ℕ) (ms : List Entry)
    → All (λ e. (e.0 ≤ t) × (e.0 + w ≤ x)) ms
    → x ≤ n
    → counted w n ms ≡ 0
counted_out w x t n [] a h = refl
counted_out w x t n (e ∷ ms) a h =
    let out : (e.0 + w) ≤ n = omega (arith, a.0.1, h) in
    ground (arith, counted_out w x t n ms a.1 h, out)

counted-trim :
    (w now n : ℕ) (ms : List Entry) → now ≤ n → counted w n (trim w now ms) ≡ counted w n ms
unfolding trim
counted-trim w now n [] h = refl
counted-trim w now n (e ∷ ms) h = ground (arith, counted-trim w now n ms h)

counted-read :
    (w t now n : ℕ) (o : Option Zset) (h : List Entry)
    → Tracks w t o h
    → t ≤ now
    → now ≤ n
    → counted w n (read now o) ≡ counted w n h
unfolding Tracks read
counted-read w t now n none h k a b = sym (k n (omega arith))
counted-read w t now n (some z) h k a b = elim (Bool-cases (leb z.expires_at now)) [
  | inl p ↦
      let over : z.expires_at ≤ n = ground (arith, p, b) in
      rw p (sym (counted_out w z.expires_at t n z.members k.1 over) ∙ k.0 n (omega arith))
  | inr p ↦ rw p (k.0 n (omega arith))
]

-- the members that a key holds
unfoldable pub members_of : Option Zset → List Entry
members_of none = []
members_of (some z) = z.members

unfoldable pub named : Text → List Entry → Bool
named m ms = any (λ e. text_eq e.1 m) ms

named-filter :
    (m : Text) (p : Entry → Bool) (ms : List Entry)
    → named m ms ≡ false
    → named m (filter p ms) ≡ false
unfolding named
named-filter m p [] h = refl
named-filter m p (e ∷ ms) h = ground (arith, named-filter m p ms)

named-read :
    (m : Text) (now : ℕ) (o : Option Zset)
    → named m (members_of o) ≡ false
    → named m (read now o) ≡ false
unfolding read members_of named
named-read m now none h = h
named-read m now (some z) h = ground (arith, h)

-- A member that is not there is added at the end.
zadd_new :
    (now : ℕ) (m : Text) (ms : List Entry)
    → named m ms ≡ false
    → zadd now m ms ≡ ms ++ (now, m) ∷ []
unfolding zadd named
zadd_new now m [] h = refl
zadd_new now m (e ∷ ms) h = ground (arith, zadd_new now m ms)

All-read :
    (w t now : ℕ) (z : Zset)
    → All (λ e. (e.0 ≤ t) × (e.0 + w ≤ z.expires_at)) z.members
    → All (λ e. (e.0 ≤ t) × (e.0 + w ≤ z.expires_at)) (read now (some z))
unfolding read
All-read w t now z a = elim (Bool-cases (leb z.expires_at now)) [ inl p ↦ rw p tt | inr p ↦ rw p a ]
