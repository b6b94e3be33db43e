-- ===== src/Broker/Queue.antt =====
-- The queue of a broker stays within its size, and a dropped item is never a terminal event.
use open_langgraph_platform.Prelude.{
  suc, ◌≤◌, ◌<◌, ◌≡◌, refl, Option, none, some, List, [], ◌∷◌, ◌++◌, arith, length, length-append,
  filter, Bool-cases, ◌&&◌, inl, inr,
}
use mathlib.Core.Path.{subst}
use open_langgraph_platform.Broker.{
  RunBroker, block, drop_oldest, is_drop_oldest, Entry, is_terminal_event, drop_oldest_non_terminal,
  accepted, enqueue, await_put, put, put_dropped, full,
}

abbrev pub terminals : List Entry → List Entry
terminals = filter (λ e. is_terminal_event e.1)

-- What `drop_oldest_non_terminal` leaves has the terminal events, and is shorter by one.
abbrev Dropped : List Entry → Option (List Entry) → Type 0
Dropped queue none = terminals queue ≡ queue
Dropped queue (some rest) = (terminals rest ≡ terminals queue) × (suc (length rest) ≡ length queue)

pub drop-Dropped : (queue : List Entry) → Dropped queue (drop_oldest_non_terminal queue)
unfolding drop_oldest_non_terminal
drop-Dropped [] = refl
drop-Dropped (item ∷ queue) = ground (arith, drop-Dropped queue)

-- An accepted event joins the end of the queue, in front of which at most one item, and no terminal
-- event, was dropped; the size of the queue stays within its maximum.
pub record Joined (b : RunBroker) (e : Entry) (b' : RunBroker) : Type 0 where
  pub before : List Entry
  pub at_end : b'.queue ≡ before ++ e ∷ []
  pub kept : terminals before ≡ terminals b.queue
  pub fits : length b'.queue ≤ b.maxsize
  pub same_size : b'.maxsize ≡ b.maxsize
  pub same_policy : b'.policy ≡ b.policy
  pub whole : b.policy ≡ block → before ≡ b.queue

enqueue-Joined :
    (b : RunBroker) (queue : List Entry) (e : Entry)
    → terminals queue ≡ terminals b.queue
    → (b.policy ≡ block → queue ≡ b.queue)
    → length queue < b.maxsize
    → Joined b e (enqueue (record b { queue = queue }) e)
unfolding enqueue
enqueue-Joined b queue e t w h = record {
  before = queue;
  at_end = ground arith;
  kept = t;
  fits = ground (arith, length-append queue (e ∷ []));
  same_size = ground arith;
  same_policy = ground arith;
  whole = w;
}

accepted_eq : {b c : RunBroker} → accepted b ≡ accepted c → b ≡ c
accepted_eq e = cc

pub await_put-Joined :
    (b : RunBroker) (e : Entry) {b' : RunBroker} → await_put b e ≡ accepted b' → Joined b e b'
unfolding await_put
await_put-Joined b e h = elim (Bool-cases (full b)) [
  | inl f ↦ cc (rw f at h)
  | inr f ↦
      subst (Joined b e) (accepted_eq (rw f at h))
        (enqueue-Joined b b.queue e refl (λ _. refl) (ground arith))
]

put_dropped-Joined :
    (b : RunBroker) (e : Entry) (o : Option (List Entry)) {b' : RunBroker}
    → Dropped b.queue o
    → (b.policy ≡ drop_oldest)
    → length b.queue ≤ b.maxsize
    → put_dropped o b e ≡ accepted b'
    → Joined b e b'
unfolding put_dropped
put_dropped-Joined b e none d p l h = await_put-Joined b e h
put_dropped-Joined b e (some queue) d p l h =
    subst (Joined b e) (accepted_eq h) (enqueue-Joined b queue e d.0 (λ q. cc) (omega (arith, d.1)))

-- An event that `put` accepts, under either policy, joins the queue as `Joined` says.
pub put-Joined :
    (b : RunBroker) (e : Entry) {b' : RunBroker}
    → length b.queue ≤ b.maxsize
    → put b e ≡ accepted b'
    → Joined b e b'
unfolding put
put-Joined b e l h = elim (Bool-cases b.finished) [
  | inl f ↦ ground arith
  | inr f ↦ elim (Bool-cases (full b && is_drop_oldest b.policy)) [
    | inl c ↦
        put_dropped-Joined b e (drop_oldest_non_terminal b.queue) (drop-Dropped b.queue)
          (ground arith) l (ground arith)
    | inr c ↦ await_put-Joined b e (ground arith)
  ]
]
