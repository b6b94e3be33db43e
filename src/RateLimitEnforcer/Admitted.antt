-- ===== src/RateLimitEnforcer/Admitted.antt =====
-- How many requests a key admits within any window.
use open_langgraph_platform.Prelude.{
  ℕ, ◌+◌, ◌≤◌, ◌<◌, ◌≡◌, refl, Bool, true, ◌&&◌, List, [], ◌∷◌, Text, text_eq, text_eq_iff,
  if◌then◌else◌, ltb, leb, filter, length, All, All-weaken, map, arith, Bool-cases, inl, inr, ap,
  sym,
}
use mathlib.Core.Path.{subst}
use open_langgraph_platform.RateLimitEnforcer.{Entry}
use open_langgraph_platform.RateLimitEnforcer.Sliding.{
  Call, Histories, counted, span, serve, ideal_step, ideal_serve,
}
use open_langgraph_platform.RateLimitEnforcer.Sliding.Refine.{in_order, is_fresh, serve_ideal}

-- the times of the key's admitted requests, by the answers
unfoldable pub admitted : Text → List Call → List (ℕ × Bool) → List ℕ
admitted key (c ∷ calls) (a ∷ answers) =
    let rest = admitted key calls answers in if text_eq c.key key && a.1 then c.now ∷ rest else rest
admitted key _ _ = []

-- how many of the times lie in the window of length `w` that ends at `at`
unfoldable pub held : ℕ → ℕ → List ℕ → ℕ
held w at times = length (filter (λ t. leb t at && ltb at (t + w)) times)

times : List Entry → List ℕ
times h = map (λ e. e.0) h

held-counted :
    (w now at : ℕ) (h : List Entry)
    → All (λ e. e.0 ≤ now) h
    → now ≤ at
    → held w at (times h) ≤ counted w now h
unfolding held times
held-counted w now at [] a l = omega arith
held-counted w now at (e ∷ h) a l = ground (arith, held-counted w now at h a.1 l)

-- What the history of one key satisfies at the time `t`.
record Bounded (w limit t : ℕ) (h : List Entry) : Type 0 where
  past : All (λ e. e.0 ≤ t) h
  held_le : (at : ℕ) → held w at (times h) ≤ limit

Bounded-later :
    (w limit t now : ℕ) (h : List Entry) → Bounded w limit t h → t ≤ now → Bounded w limit now h
Bounded-later w limit t now h b l = record {
  past = All-weaken (λ e. e.0 ≤ t) (λ e. e.0 ≤ now) h (λ e p. omega (arith, p, l)) b.past;
  held_le = b.held_le;
}

Bounded-admit :
    (w limit t now : ℕ) (m : Text) (h : List Entry)
    → Bounded w limit t h
    → t ≤ now
    → counted w now h < limit
    → Bounded w limit now ((now, m) ∷ h)
unfolding held times
Bounded-admit w limit t now m h b l room =
    let later = Bounded-later w limit t now h b l in
    record {
      past = (omega arith, later.past);
      held_le = λ at. elim (Bool-cases (leb now at)) [
        | inl p ↦ ground (arith, p, held-counted w now at h later.past, room)
        | inr p ↦ ground (arith, p, b.held_le at)
      ];
    }

module _ (window_of limit_of : Text → ℕ) (key : Text) where
  ideal-Bounded :
      (t at : ℕ) (h : Histories) (calls : List Call)
      → Bounded (span window_of key) (limit_of key) t (h key)
      → in_order t calls ≡ true
      → held (span window_of key) at (times (h key))
          + held
              (span window_of key)
              at
              (admitted key calls (ideal_serve window_of limit_of h calls))
        ≤ limit_of key
  unfolding admitted ideal_serve ideal_step in_order held times
  ideal-Bounded t at h [] b ordered = omega (arith, b.held_le at)
  ideal-Bounded t at h (c ∷ calls) b ordered =
      let later : t ≤ c.now = ground (arith, ordered) in
      let after : in_order c.now calls ≡ true = ground (arith, ordered) in
      elim (Bool-cases (ltb (counted (span window_of c.key) c.now (h c.key)) (limit_of c.key))) [
        | inr p ↦
            let ih =
              ideal-Bounded c.now at h calls
                (Bounded-later (span window_of key) (limit_of key) t c.now (h key) b later) after in
            rw p (ground (arith, ih))
        | inl p ↦
            let h' : Histories =
              λ k. if text_eq c.key k then (c.now, c.member) ∷ h c.key else h k in
            elim (Bool-cases (text_eq c.key key)) [
              | inr q ↦
                  let same : h' key ≡ h key = rw q refl in
                  let ih =
                    ideal-Bounded c.now at h' calls
                      (subst (Bounded (span window_of key) (limit_of key) c.now) (sym same)
                        (Bounded-later (span window_of key) (limit_of key) t c.now (h key) b later))
                      after in
                  rw (p, q) (rw same at ih)
              | inl q ↦
                  let here : c.key ≡ key = (text_eq_iff c.key key).0 q in
                  let same : h' key ≡ (c.now, c.member) ∷ h key =
                    rw q (ap (λ k. (c.now, c.member) ∷ h k) here) in
                  let room : counted (span window_of key) c.now (h key) < limit_of key =
                    subst (λ k. counted (span window_of k) c.now (h k) < limit_of k) here
                      (ground (arith, p)) in
                  let ih =
                    ideal-Bounded c.now at h' calls
                      (subst (Bounded (span window_of key) (limit_of key) c.now) (sym same) (
                        Bounded-admit (span window_of key) (limit_of key) t c.now c.member (h key) b
                          later room))
                      after in
                  rw (p, q) (ground (arith, rw same at ih))
            ]
      ]

nothing_held : (w at : ℕ) → held w at (times []) ≡ 0
unfolding held times
nothing_held w at = refl

-- Whatever the sequence of checks and whenever one looks, the requests of a key that the enforcer
-- admitted within the window before are never more than the key's limit: there is no burst of twice the
-- limit at the border of two windows. The times must not go back, and a member that its key still holds
-- must not be drawn again.
pub serve_admits :
    (window_of limit_of : Text → ℕ) (key : Text) (at : ℕ) (calls : List Call)
    → in_order 0 calls ≡ true
    → is_fresh window_of limit_of [] calls ≡ true
    → held (span window_of key) at (admitted key calls (serve window_of limit_of [] calls))
      ≤ limit_of key
serve_admits window_of limit_of key at calls ordered fresh =
    rw (serve_ideal window_of limit_of calls ordered fresh) (
      omega (
        arith,
        nothing_held (span window_of key) at,
        ideal-Bounded window_of limit_of key 0 at (λ _. []) calls
            (record {
              past = tt;
              held_le = λ i. omega (arith, nothing_held (span window_of key) i);
            })
            ordered,
      ))
