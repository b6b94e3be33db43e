-- ===== src/Broker.antt =====
-- services/broker.py, `RunBroker`: the queue of one run's events between the run (producer) and the
-- stream (consumer). A coroutine that waits is a value `waiting`; what happens across the wait is
-- left to the schedule in Broker/System.
pub mod Queue
pub mod System
pub mod Delivery
pub mod Consumer
mod Examples
use open_langgraph_platform.Prelude.{
  ℕ, zero, suc, ◌-◌, Bool, true, false, ◌&&◌, ◌||◌, not, Option, none, some, List, [], ◌∷◌, ◌++◌,
  Text, codes, length, leb, if◌then◌else◌,
}
use open_langgraph_platform.Prelude.Int.{ℤ, pos}
use open_langgraph_platform.Value.{Value, has_label}

pub data BackpressurePolicy : Type 0 where
  block drop_oldest : BackpressurePolicy

abbrev pub is_drop_oldest : BackpressurePolicy → Bool
is_drop_oldest block = false
is_drop_oldest drop_oldest = true

-- an event id and its payload
abbrev pub Entry : Type 0
Entry = Text × Value

pub record RunBroker : Type 0 where
  pub run_id : Text
  pub maxsize : ℕ
  pub policy : BackpressurePolicy
  pub queue : List Entry
  pub finished : Bool
  pub created_at : ℕ

-- `_parse_int_env`: `parsed` is what `int` makes of the variable, if it is set and a number
unfoldable pub parse_int_env : Option ℤ → ℕ → ℕ
parse_int_env (some (pos (suc n))) default = suc n
parse_int_env parsed default = default

-- `__init__`, at the time `now`
unfoldable pub init : Text → Option ℤ → BackpressurePolicy → ℕ → RunBroker
unfolding parse_int_env
init run_id queue_maxsize policy now = record {
  run_id = run_id;
  maxsize = parse_int_env queue_maxsize 1000;
  policy = policy;
  queue = [];
  finished = false;
  created_at = now;
}

abbrev pub is_end : Value → Bool
is_end payload = has_label (codes "end") payload

unfoldable pub is_terminal_event : Value → Bool
is_terminal_event payload = has_label (codes "end") payload || has_label (codes "error") payload

-- `queue.full()`
abbrev pub full : RunBroker → Bool
full b = leb b.maxsize (length b.queue)

-- The loop of `_drop_oldest_non_terminal`: the queue without the item, or `none` for `False`.
unfoldable pub drop_oldest_non_terminal : List Entry → Option (List Entry)
drop_oldest_non_terminal [] = none
drop_oldest_non_terminal (item ∷ queue) =
    let later : Option (List Entry) = elim (drop_oldest_non_terminal queue) [
      | none ↦ none
      | some rest ↦ some (item ∷ rest)
    ] in
    if is_terminal_event item.1 then later else some queue

unfoldable pub mark_finished : RunBroker → RunBroker
mark_finished b = record b { finished = true }

-- The end of `put`, once the item has its place: an "end" event finishes the broker.
unfoldable pub enqueue : RunBroker → Entry → RunBroker
unfolding mark_finished
enqueue b e =
    let added = record b { queue = b.queue ++ e ∷ [] } in
    if is_end e.1 then mark_finished added else added

pub data Put : Type 0 where
  ignored : Put
  accepted : RunBroker → Put
  waiting : Put

-- `await self.queue.put(item)`: it waits while the queue is full
unfoldable pub await_put : RunBroker → Entry → Put
unfolding enqueue
await_put b e = if full b then waiting else accepted (enqueue b e)

put_dropped : Option (List Entry) → RunBroker → Entry → Put
unfolding enqueue await_put
put_dropped none b e = await_put b e
put_dropped (some queue) b e = accepted (enqueue (record b { queue = queue }) e)

unfoldable pub put : RunBroker → Entry → Put
unfolding drop_oldest_non_terminal await_put put_dropped
put b e =
    if b.finished
    then ignored
    else if full b && is_drop_oldest b.policy
    then put_dropped (drop_oldest_non_terminal b.queue) b e
    else await_put b e

-- One round of the loop in `aiter`: what it yields and whether the loop ends.
pub data Poll : Type 0 where
  yielded : Entry → Bool → Poll
  timed_out : Bool → Poll

unfoldable pub poll_queue : List Entry → RunBroker → RunBroker × Poll
poll_queue [] b = (b, timed_out b.finished)
poll_queue (e ∷ rest) b = (record b { queue = rest }, yielded e (is_end e.1))

unfoldable pub poll : RunBroker → RunBroker × Poll
unfolding poll_queue
poll b = poll_queue b.queue b

unfoldable pub is_finished : RunBroker → Bool
is_finished b = b.finished

unfoldable pub is_empty : RunBroker → Bool
is_empty b = elim b.queue [ [] ↦ true | _ ↦ false ]

unfoldable pub get_age : RunBroker → ℕ → ℕ
get_age b now = now - b.created_at
