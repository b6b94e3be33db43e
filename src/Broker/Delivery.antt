-- ===== src/Broker/Delivery.antt =====
-- What the consumer of a broker is given, under every schedule.
use mathlib.Core.List.{append_assoc}
use open_langgraph_platform.Prelude.{
  ◌≤◌, ◌≡◌, refl, sym, ap, ◌∙◌, List, [], ◌∷◌, ◌++◌, arith, length, filter-append, Bool-cases, inl,
  inr,
}
use open_langgraph_platform.Broker.{
  RunBroker, block, Entry, Put, ignored, accepted, waiting, await_put, put, poll, poll_queue,
  mark_finished,
}
use open_langgraph_platform.Broker.Queue.{terminals, Joined, await_put-Joined, put-Joined}
use open_langgraph_platform.Broker.System.{
  System, Action, produce, wake, consume, finish, start, produced, woken, wake_first, consumed,
  step, run,
}

pub record IsValid (s : System) : Type 0 where
  pub fits : length s.broker.queue ≤ s.broker.maxsize
  pub terminals_kept : terminals (s.delivered ++ s.broker.queue) ≡ terminals s.history
  pub in_order : s.broker.policy ≡ block → s.delivered ++ s.broker.queue ≡ s.history

abbrev entered : System → Entry → RunBroker → System
entered s e b = record s { broker = b; history = s.history ++ e ∷ [] }

-- An event joins both sides of the equation between terminal events.
terminals_join :
    (d q q' h : List Entry) (e : Entry)
    → terminals q' ≡ terminals q
    → terminals (d ++ q) ≡ terminals h
    → terminals (d ++ (q' ++ e ∷ [])) ≡ terminals (h ++ e ∷ [])
terminals_join d q q' h e k t =
    simp (filter-append, k, ← append_assoc) (rw (← filter-append) (rw t))

entered-IsValid :
    (s : System) (e : Entry) (b : RunBroker)
    → IsValid s
    → Joined s.broker e b
    → IsValid (entered s e b)
entered-IsValid s e b v j = record {
  fits = omega (arith, j.fits, j.same_size);
  terminals_kept =
      rw j.at_end
        (terminals_join s.delivered s.broker.queue j.before s.history e j.kept v.terminals_kept);
  in_order = λ p. rw j.at_end (
      rw (j.whole (sym j.same_policy ∙ p)) (
        sym (append_assoc s.delivered s.broker.queue (e ∷ []))
        ∙ ap (λ l. l ++ e ∷ []) (v.in_order (sym j.same_policy ∙ p))));
}

blocked-IsValid : (s : System) (l : List Entry) → IsValid s → IsValid (record s { blocked = l })
blocked-IsValid s l v = record {
  fits = v.fits;
  terminals_kept = v.terminals_kept;
  in_order = v.in_order;
}

produced-IsValid :
    (o : Put) (s : System) (e : Entry) → put s.broker e ≡ o → IsValid s → IsValid (produced o s e)
unfolding produced
produced-IsValid ignored s e p v = v
produced-IsValid (accepted b) s e p v = entered-IsValid s e b v (put-Joined s.broker e v.fits p)
produced-IsValid waiting s e p v = blocked-IsValid s (s.blocked ++ e ∷ []) v

woken-IsValid :
    (o : Put) (s : System) (e : Entry) (rest : List Entry)
    → await_put s.broker e ≡ o
    → IsValid s
    → IsValid (woken o s e rest)
unfolding woken
woken-IsValid ignored s e rest p v = v
woken-IsValid (accepted b) s e rest p v =
    blocked-IsValid (entered s e b) rest (entered-IsValid s e b v (await_put-Joined s.broker e p))
woken-IsValid waiting s e rest p v = v

wake_first-IsValid : (l : List Entry) (s : System) → IsValid s → IsValid (wake_first l s)
unfolding wake_first
wake_first-IsValid [] s v = v
wake_first-IsValid (e ∷ rest) s v = woken-IsValid (await_put s.broker e) s e rest refl v

consumed-IsValid :
    (q : List Entry) (s : System)
    → s.broker.queue ≡ q
    → IsValid s
    → IsValid (consumed (poll_queue q s.broker) s)
unfolding consumed poll_queue
consumed-IsValid [] s e v = record {
  fits = v.fits;
  terminals_kept = v.terminals_kept;
  in_order = v.in_order;
}
consumed-IsValid (x ∷ q) s e v = record {
  fits = omega (arith, v.fits, ap length e);
  terminals_kept = rw append_assoc (rw (← e) v.terminals_kept);
  in_order = λ p. rw append_assoc (rw (← e) (v.in_order p));
}

step-IsValid : (s : System) (a : Action) → IsValid s → IsValid (step s a)
unfolding step
step-IsValid s (produce e) v = produced-IsValid (put s.broker e) s e refl v
step-IsValid s wake v = wake_first-IsValid s.blocked s v
step-IsValid s consume v = elim (Bool-cases s.stopped) [
  | inl p ↦ simp p v
  | inr p ↦ simp p (unfold poll in consumed-IsValid s.broker.queue s refl v)
]
step-IsValid s finish v =
    unfold mark_finished in
    (record { fits = v.fits; terminals_kept = v.terminals_kept; in_order = v.in_order })

run-IsValid : (s : System) (actions : List Action) → IsValid s → IsValid (run s actions)
unfolding run
run-IsValid s [] v = v
run-IsValid s (a ∷ actions) v = run-IsValid (step s a) actions (step-IsValid s a v)

start-IsValid : (b : RunBroker) → b.queue ≡ [] → IsValid (start b)
start-IsValid b e = record { fits = rw e (omega arith); terminals_kept = rw e; in_order = λ p. e }

-- Under every schedule of producers, woken producers, the consumer and `mark_finished`, from an empty
-- broker: the queue stays within its maximum size; the terminal events delivered and queued are
-- exactly those accepted, in order, so backpressure never drops one; and under the policy `block`
-- the events delivered and queued are all those accepted, in order and once each.
pub delivery-IsValid :
    (b : RunBroker) (actions : List Action) → b.queue ≡ [] → IsValid (run (start b) actions)
delivery-IsValid b actions e = run-IsValid (start b) actions (start-IsValid b e)
