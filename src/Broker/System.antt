-- ===== src/Broker/System.antt =====
-- A broker with its coroutines: producers, some of which wait for room, one consumer, and whoever
-- marks the broker finished. A schedule is a list of actions. `history` remembers every event that
-- entered the queue, `delivered` what the consumer was given.
use open_langgraph_platform.Prelude.{Bool, false, List, [], ◌∷◌, ◌++◌, if◌then◌else◌}
use open_langgraph_platform.Broker.{
  RunBroker, Entry, Put, ignored, accepted, waiting, await_put, put, Poll, yielded, timed_out, poll,
  mark_finished,
}

pub record System : Type 0 where
  pub broker : RunBroker
  pub blocked : List Entry
  pub history : List Entry
  pub delivered : List Entry
  pub stopped : Bool

pub data Action : Type 0 where
  produce : Entry → Action
  wake : Action
  consume : Action
  finish : Action

abbrev pub start : RunBroker → System
start b = record { broker = b; blocked = []; history = []; delivered = []; stopped = false }

-- after `put`: an accepted event is in the queue, a waiting producer is parked
unfoldable pub produced : Put → System → Entry → System
produced ignored s e = s
produced (accepted b) s e = record s { broker = b; history = s.history ++ e ∷ [] }
produced waiting s e = record s { blocked = s.blocked ++ e ∷ [] }

-- a parked producer tries again; it does not look at `finished` any more
unfoldable pub woken : Put → System → Entry → List Entry → System
woken (accepted b) s e rest = record s { broker = b; history = s.history ++ e ∷ []; blocked = rest }
woken _ s e rest = s

unfoldable pub wake_first : List Entry → System → System
unfolding woken
wake_first [] s = s
wake_first (e ∷ rest) s = woken (await_put s.broker e) s e rest

unfoldable pub consumed : RunBroker × Poll → System → System
consumed (b, yielded e last) s = record s {
  broker = b;
  delivered = s.delivered ++ e ∷ [];
  stopped = last;
}
consumed (b, timed_out done) s = record s { broker = b; stopped = done }

unfoldable pub step : System → Action → System
unfolding produced wake_first consumed
step s (produce e) = produced (put s.broker e) s e
step s wake = wake_first s.blocked s
step s consume = if s.stopped then s else consumed (poll s.broker) s
step s finish = record s { broker = mark_finished s.broker }

unfoldable pub run : System → List Action → System
run s [] = s
run s (a ∷ actions) = run (step s a) actions
