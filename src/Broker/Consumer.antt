-- ===== src/Broker/Consumer.antt =====
-- The loop of `aiter` ends once the broker is finished, and has then read the queue.
use mathlib.Core.Path.{subst}
use mathlib.Core.List.{append-nil, append_assoc}
use open_langgraph_platform.Prelude.{
  ℕ, zero, suc, ◌≡◌, refl, sym, Bool, true, false, List, [], ◌∷◌, ◌++◌, length, ap, ◌∙◌, Bool-cases,
  inl, inr, if◌then◌else◌, map,
}
use open_langgraph_platform.Broker.{Entry, is_end, put, poll, poll_queue, mark_finished}
use open_langgraph_platform.Broker.System.{
  System, Action, consume, produce, wake, finish, wake_first, produced, consumed, step, run,
}

-- The events up to the first "end", that one included.
abbrev pub until_end : List Entry → List Entry
until_end [] = []
until_end (e ∷ q) = e ∷ (if is_end e.1 then [] else until_end q)

-- `n` rounds of the consumer.
abbrev pub rounds : ℕ → List Action
rounds zero = []
rounds (suc n) = consume ∷ rounds n

step-consume_stopped : (s : System) → s.stopped ≡ true → step s consume ≡ s
unfolding step
step-consume_stopped s p = simp p

stopped_stays : (s : System) (n : ℕ) → s.stopped ≡ true → run s (rounds n) ≡ s
unfolding run
stopped_stays s zero p = refl
stopped_stays s (suc n) p =
    ap (λ t. run t (rounds n)) (step-consume_stopped s p) ∙ stopped_stays s n p

-- What one round does to a consumer that runs, by the queue that it finds.
after_round : List Entry → System → System
unfolding consumed poll_queue
after_round q s = consumed (poll_queue q s.broker) s

step-consume : (s : System) → s.stopped ≡ false → step s consume ≡ after_round s.broker.queue s
unfolding step after_round poll
step-consume s p = simp p

run-rounds :
    (s : System) (n : ℕ) (q : List Entry)
    → s.broker.queue ≡ q
    → s.stopped ≡ false
    → run s (rounds (suc n)) ≡ run (after_round q s) (rounds n)
unfolding run
run-rounds s n q e p = ap (λ t. run t (rounds n)) (step-consume s p ∙ ap (λ l. after_round l s) e)

-- The consumer has stopped, having read `q`.
abbrev pub Drained : System → List Entry → List Entry → Type 0
Drained t before q = (t.stopped ≡ true) × (t.delivered ≡ before ++ until_end q)

drains :
    (q : List Entry) (s : System)
    → s.broker.queue ≡ q
    → s.broker.finished ≡ true
    → s.stopped ≡ false
    → Drained (run s (rounds (suc (length q)))) s.delivered q
unfolding after_round
drains [] s e f p = rw (run-rounds s 0 [] e p) (unfold run in (f, simp append-nil))
drains (x ∷ q) s e f p =
    rw (run-rounds s (suc (length q)) (x ∷ q) e p) (elim (Bool-cases (is_end x.1)) [
      | inl y ↦ rw (stopped_stays (after_round (x ∷ q) s) (suc (length q)) y) (y, rw y)
      | inr y ↦
          let rest = drains q (after_round (x ∷ q) s) refl f y in
          (rest.0, rw (rest.1, y) (append_assoc s.delivered (x ∷ []) (until_end q)))
    ])

step-produce_finished : (s : System) (e : Entry) → s.broker.finished ≡ true → step s (produce e) ≡ s
unfolding step produced put
step-produce_finished s e f = simp f

-- What producers offer to a finished broker changes nothing.
pub finished_ignores :
    (s : System) (offers : List Entry) → s.broker.finished ≡ true → run s (map produce offers) ≡ s
unfolding run
finished_ignores s [] f = refl
finished_ignores s (e ∷ offers) f =
    ap (λ t. run t (map produce offers)) (step-produce_finished s e f) ∙ finished_ignores s offers f

-- the rounds of the consumer in a schedule
abbrev pub consumes : List Action → ℕ
consumes [] = 0
consumes (consume ∷ actions) = suc (consumes actions)
consumes (a ∷ actions) = consumes actions

-- Finished, with no producer parked in `put`: what a round of the consumer leaves so.
abbrev IsQuiet : System → Type 0
IsQuiet s = (s.broker.finished ≡ true) × (s.blocked ≡ [])

IsQuiet-consumed :
    (q : List Entry) (s : System) → IsQuiet s → IsQuiet (consumed (poll_queue q s.broker) s)
unfolding consumed poll_queue
IsQuiet-consumed [] s h = h
IsQuiet-consumed (e ∷ q) s h = h

IsQuiet-consume : (s : System) → IsQuiet s → IsQuiet (step s consume)
unfolding after_round
IsQuiet-consume s h = elim (Bool-cases s.stopped) [
  | inl p ↦ subst IsQuiet (sym (step-consume_stopped s p)) h
  | inr p ↦ subst IsQuiet (sym (step-consume s p)) (IsQuiet-consumed s.broker.queue s h)
]

step-wake_quiet : (s : System) → s.blocked ≡ [] → step s wake ≡ s
unfolding step wake_first
step-wake_quiet s b = simp b

step-finish_quiet : (s : System) → s.broker.finished ≡ true → step s finish ≡ s
unfolding step mark_finished
step-finish_quiet s f =
    ap {A = Bool} {B = System} (λ x. record s { broker = record s.broker { finished = x } }) (sym f)

quiet_rounds :
    (s : System) (actions : List Action)
    → IsQuiet s
    → run s actions ≡ run s (rounds (consumes actions))
unfolding run
quiet_rounds s [] q = refl
quiet_rounds s (consume ∷ actions) q = quiet_rounds (step s consume) actions (IsQuiet-consume s q)
quiet_rounds s (produce e ∷ actions) q =
    ap (λ t. run t actions) (step-produce_finished s e q.0) ∙ quiet_rounds s actions q
quiet_rounds s (wake ∷ actions) q =
    ap (λ t. run t actions) (step-wake_quiet s q.1) ∙ quiet_rounds s actions q
quiet_rounds s (finish ∷ actions) q =
    ap (λ t. run t actions) (step-finish_quiet s q.0) ∙ quiet_rounds s actions q

-- Once the broker is finished and no producer is parked in `put`, a consumer that still runs stops after
-- as many rounds as there are queued events and one more, and has then been given the queued events up
-- to the first "end", whatever producers offer, wakes and further marks come between its rounds.
pub finished_drains :
    (s : System) (actions : List Action)
    → s.broker.finished ≡ true
    → s.blocked ≡ []
    → s.stopped ≡ false
    → consumes actions ≡ suc (length s.broker.queue)
    → Drained (run s actions) s.delivered s.broker.queue
finished_drains s actions f b p n =
    rw (quiet_rounds s actions (f, b), n) (drains s.broker.queue s refl f p)
