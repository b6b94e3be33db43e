-- ===== src/RateLimitEnforcer/Sliding/Refine.antt =====
-- The steps of the enforcer follow those of the ideal limiter.
use open_langgraph_platform.Prelude.{
  ℕ, ◌+◌, ◌*◌, ◌≤◌, ◌≡◌, refl, Bool, true, false, ◌&&◌, not, Option, none, some, List, [], ◌∷◌,
  ◌++◌, Text, text_eq, text_eq_iff, if◌then◌else◌, ltb, leb, filter, length, All, All-filter,
  All-append, All-weaken, arith, Bool-cases, inl, inr, length-append, filter-append, ap, ◌∙◌, sym,
}
use mathlib.Core.Path.{subst}
use open_langgraph_platform.Dict.{lookup, insert, lookup-insert}
use open_langgraph_platform.RateLimitEnforcer.{
  Entry, Zset, Store, read, in_window, trim, zadd, kept, window_step, sliding_window_check, serves,
}
use open_langgraph_platform.RateLimitEnforcer.Sliding.{
  Call, Histories, counted, Tracks, counted-trim, counted-read, members_of, named, named-filter,
  named-read, zadd_new, All-read, serve, span, ideal_step, ideal_serve,
}

All-entries :
    (w t now : ℕ) (o : Option Zset) (h : List Entry)
    → Tracks w t o h
    → t ≤ now
    → All (λ e. e.0 ≤ now) (trim w now (read now o))
unfolding Tracks trim read
All-entries w t now none h k a = tt
All-entries w t now (some z) h k a =
    All-filter (λ e. e.0 ≤ now) (in_window w now) (read now (some z))
      (All-weaken (λ e. (e.0 ≤ t) × (e.0 + w ≤ z.expires_at)) (λ e. e.0 ≤ now) (read now (some z))
        (λ e p. omega (arith, p.0, a)) (All-read w t now z k.1))

counted-append :
    (w n : ℕ) (xs : List Entry) (e : Entry) → counted w n (xs ++ e ∷ []) ≡ counted w n (e ∷ xs)
counted-append w n xs e = ground (
  arith,
  filter-append (in_window w n) xs (e ∷ []),
  length-append (filter (in_window w n) xs) (filter (in_window w n) (e ∷ [])),
)

module _ (w t now : ℕ) (m : Text) (o : Option Zset) (h : List Entry) (k : Tracks w t o h)
    (later : t ≤ now) where
  admitted-Tracks :
      (expires_at : ℕ)
      → now + w ≤ expires_at
      → named m (members_of o) ≡ false
      → Tracks w now
          (some
            (record { members = zadd now m (trim w now (read now o)); expires_at = expires_at }))
          ((now, m) ∷ h)
  unfolding Tracks
  admitted-Tracks expires_at enough fresh =
      let entries = trim w now (read now o) in
      let new : zadd now m entries ≡ entries ++ (now, m) ∷ [] =
        zadd_new now m entries (
          unfold trim in
          named-filter m (in_window w now) (read now o) (named-read m now o fresh)) in
      rw new (
        λ n a.
            let same : counted w n entries ≡ counted w n h =
              counted-trim w now n (read now o) a ∙ counted-read w t now n o h k later a in
            counted-append w n entries (now, m) ∙ ground (arith, same),
        All-append (λ e. (e.0 ≤ now) × (e.0 + w ≤ expires_at)) entries ((now, m) ∷ [])
            (All-weaken (λ e. e.0 ≤ now) (λ e. (e.0 ≤ now) × (e.0 + w ≤ expires_at)) entries
              (λ e p. (p, omega (arith, p, enough))) (All-entries w t now o h k later))
            ((omega arith, enough), tt),
      )

  refused-Tracks :
      (z : Zset)
      → o ≡ some z
      → Tracks w now (some (record z { members = trim w now (read now o) })) h
  unfolding Tracks
  refused-Tracks z e = (
    λ n a. counted-trim w now n (read now o) a ∙ counted-read w t now n o h k later a,
    subst (λ q. All (λ f. (f.0 ≤ now) × (f.0 + w ≤ z.expires_at)) (trim w now (read now q))) (sym e)
        (unfold trim in
          All-filter (λ f. (f.0 ≤ now) × (f.0 + w ≤ z.expires_at)) (in_window w now)
            (read now (some z))
            (All-weaken (λ f. (f.0 ≤ t) × (f.0 + w ≤ z.expires_at))
              (λ f. (f.0 ≤ now) × (f.0 + w ≤ z.expires_at)) (read now (some z))
              (λ f p. (omega (arith, p.0, later), p.1))
              (All-read w t now z (subst (λ q. Tracks w t q h) e k).1))),
  )

  count_lem : length (trim w now (read now o)) ≡ counted w now h
  unfolding trim
  count_lem = counted-read w t now now o h k later (omega arith)

Tracks-later :
    (w t now : ℕ) (o : Option Zset) (h : List Entry) → Tracks w t o h → t ≤ now → Tracks w now o h
unfolding Tracks
Tracks-later w t now none h k a = λ n b. k n (omega arith)
Tracks-later w t now (some z) h k a = (
  λ n b. k.0 n (omega arith),
  All-weaken (λ e. (e.0 ≤ t) × (e.0 + w ≤ z.expires_at))
      (λ e. (e.0 ≤ now) × (e.0 + w ≤ z.expires_at)) z.members (λ e p. (omega (arith, p.0, a), p.1))
      k.1,
)

-- A key's set is written, or only what another key's reads.
Tracks-insert :
    (window_of : Text → ℕ) (t now : ℕ) (store : Store) (h : Histories) (key : Text) (z : Zset)
    (g : List Entry)
    → ((k : Text) → Tracks (span window_of k) t (lookup k store) (h k))
    → t ≤ now
    → Tracks (span window_of key) now (some z) g
    → (k : Text)
    → Tracks
        (span window_of k)
        now
        (lookup k (insert key z store))
        (if text_eq key k then g else h k)
Tracks-insert window_of t now store h key z g all later new k = elim (Bool-cases (text_eq key k)) [
  | inl p ↦
      rw (lookup-insert key k z store, p)
        (subst (λ j. Tracks (span window_of j) now (some z) g) ((text_eq_iff key k).0 p) new)
  | inr p ↦
      rw (lookup-insert key k z store, p)
        (Tracks-later (span window_of k) t now (lookup k store) (h k) (all k) later)
]

same_history : (h : Histories) (key k : Text) → (if text_eq key k then h key else h k) ≡ h k
same_history h key k = elim (Bool-cases (text_eq key k)) [
  | inl p ↦ rw p (ap h ((text_eq_iff key k).0 p))
  | inr p ↦ rw p refl
]

-- The times do not go back.
unfoldable pub in_order : ℕ → List Call → Bool
in_order t [] = true
in_order t (c ∷ calls) = leb t c.now && in_order c.now calls

module _ (window_of limit_of : Text → ℕ) where
  abbrev pub AllTrack : ℕ → Store → Histories → Type 0
  AllTrack t store h = (k : Text) → Tracks (span window_of k) t (lookup k store) (h k)

  -- One check, by what the key holds.
  record Followed (c : Call) (found : Option Zset) (store : Store) (h : Histories) : Type 0 where
    answers :
        (window_step found store c.key (window_of c.key) (limit_of c.key) c.now c.member).1
        ≡ (ideal_step window_of limit_of h c).1
    tracks :
        AllTrack c.now
          (window_step found store c.key (window_of c.key) (limit_of c.key) c.now c.member).0
          (ideal_step window_of limit_of h c).0

  kept-AllTrack :
      (t : ℕ) (c : Call) (found : Option Zset) (store : Store) (h : Histories)
      → lookup c.key store ≡ found
      → AllTrack t store h
      → t ≤ c.now
      → AllTrack c.now
          (kept found c.key (trim (span window_of c.key) c.now (read c.now found)) store)
          h
  unfolding kept
  kept-AllTrack t c none store h e all later =
      λ k. Tracks-later (span window_of k) t c.now (lookup k store) (h k) (all k) later
  kept-AllTrack t c (some z) store h e all later = λ k.
      let here = subst (λ o. Tracks (span window_of c.key) t o (h c.key)) e (all c.key) in
      let entries = trim (span window_of c.key) c.now (read c.now (some z)) in
      subst
        (λ g.
          Tracks (span window_of k) c.now
            (lookup k (insert c.key (record z { members = entries }) store)) g)
        (same_history h c.key k)
        (Tracks-insert window_of t c.now store h c.key (record z { members = entries }) (h c.key)
          all later
          (refused-Tracks (span window_of c.key) t c.now c.member (some z) (h c.key) here later z
            refl)
          k)

  step-Followed :
      (t : ℕ) (c : Call) (found : Option Zset) (store : Store) (h : Histories)
      → lookup c.key store ≡ found
      → AllTrack t store h
      → t ≤ c.now
      → named c.member (members_of found) ≡ false
      → Followed c found store h
  unfolding window_step ideal_step
  step-Followed t c found store h e all later fresh =
      let w = span window_of c.key in
      let here = subst (λ o. Tracks w t o (h c.key)) e (all c.key) in
      let same = count_lem w t c.now c.member found (h c.key) here later in
      elim (Bool-cases (ltb (counted w c.now (h c.key)) (limit_of c.key))) [
        | inl p ↦ record {
          answers = rw (same, p) refl;
          tracks =
              rw (same, p)
                (Tracks-insert window_of t c.now store h c.key
                  (record {
                    members = zadd c.now c.member (trim w c.now (read c.now found));
                    expires_at = c.now + (window_of c.key + 60) * 1000;
                  })
                  ((c.now, c.member) ∷ h c.key) all later
                  (admitted-Tracks w t c.now c.member found (h c.key) here later
                    (c.now + (window_of c.key + 60) * 1000) (omega arith) fresh));
        }
        | inr p ↦ record {
          answers = rw (same, p) refl;
          tracks = rw (same, p) (kept-AllTrack t c found store h e all later);
        }
      ]

  -- No call's member is one that its key still holds.
  unfoldable pub is_fresh : Store → List Call → Bool
  unfolding sliding_window_check named members_of
  is_fresh store [] = true
  is_fresh store (c ∷ calls) =
      let (store', answer) =
        sliding_window_check serves store c.key (window_of c.key) (limit_of c.key) c.now c.member in
      not (named c.member (members_of (lookup c.key store))) && is_fresh store' calls

  pub serve_refines :
      (t : ℕ) (store : Store) (h : Histories) (calls : List Call)
      → AllTrack t store h
      → in_order t calls ≡ true
      → is_fresh store calls ≡ true
      → serve window_of limit_of store calls ≡ ideal_serve window_of limit_of h calls
  unfolding serve ideal_serve in_order is_fresh sliding_window_check
  serve_refines t store h [] all ordered fresh = refl
  serve_refines t store h (c ∷ calls) all ordered fresh =
      let later : t ≤ c.now = ground (arith, ordered) in
      let new : named c.member (members_of (lookup c.key store)) ≡ false = ground (arith, fresh) in
      let f = step-Followed t c (lookup c.key store) store h refl all later new in
      let rest =
        serve_refines c.now
          (window_step (lookup c.key store) store c.key (window_of c.key) (limit_of c.key) c.now
            c.member).0
          (ideal_step window_of limit_of h c).0 calls f.tracks (ground (arith, ordered))
          (ground (arith, fresh)) in
      rw (f.answers, rest) refl

-- From an empty Redis, the enforcer answers every sequence of checks as the ideal limiter does, which
-- remembers all admissions and counts those of the window that ends now: trimming the sets and
-- expiring their keys never changes an answer, for any number of keys, each with its window and limit.
-- The times must not go back, and a member that its key still holds must not be drawn again.
pub serve_ideal :
    (window_of limit_of : Text → ℕ) (calls : List Call)
    → in_order 0 calls ≡ true
    → is_fresh window_of limit_of [] calls ≡ true
    → serve window_of limit_of [] calls ≡ ideal_serve window_of limit_of (λ _. []) calls
unfolding Tracks lookup
serve_ideal window_of limit_of calls ordered fresh =
    serve_refines window_of limit_of 0 [] (λ _. []) calls (λ k n _. refl) ordered fresh
