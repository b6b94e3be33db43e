-- ===== src/Runs/Execute.antt =====
-- api/runs.py, `execute_run_async`: the task of a run, cut at the points where it waits. A graph is
-- the sequence of raw events that `astream` yields; whether its state has a next node is an argument.
pub mod Ends
pub mod Rounds
pub mod Stores
pub mod Moves
use open_langgraph_platform.Prelude.{
  ℕ, ◌+◌, Bool, true, false, ◌||◌, Option, none, some, List, [], ◌∷◌, Text, codes, text_eq,
  if◌then◌else◌, or_else, is_some,
}
use open_langgraph_platform.Value.{
  Value, str, list, tuple, dict, Items, nil, cons, Fields, end, field, get_field, is_truthy,
}
use open_langgraph_platform.Dict.{Dict, lookup, insert, remove}
use open_langgraph_platform.EventId.{generate_event_id}
use open_langgraph_platform.Broker.{Put, ignored, accepted, waiting}
use open_langgraph_platform.Streaming.{Write, lands, fails, abandoned, Service}
use open_langgraph_platform.Streaming.Storing.{store_event_from_raw}
use open_langgraph_platform.Streaming.Producer.{
  Sent, put_result, skipped, failed, put_to_broker, signal_run_cancelled, signal_run_error,
  cleanup_run,
}
use open_langgraph_platform.Runs.{Task, Server, update_run_status, set_thread_status}

-- the first thing that the task does
unfoldable pub begin : Server → Text → Server
begin srv run_id = record srv {
  runs = update_run_status srv.runs run_id (codes "running") none none;
}

last_item : Value → Items → Value
last_item v nil = v
last_item v (cons w items) = last_item w items

has_item : Text → Items → Bool
has_item s nil = false
has_item s (cons (str t) items) = text_eq t s || has_item s items
has_item s (cons v items) = has_item s items

tagged : Option Value → Bool
unfolding has_item
tagged (some (list tags)) = has_item (codes "langsmith:nostream") tags
tagged _ = false

nostream : Value → Bool
unfolding tagged
nostream (tuple (cons v (cons (dict metadata) rest))) = tagged (get_field (codes "tags") metadata)
nostream v = false

-- `_should_skip_event`
unfoldable pub should_skip_event : Value → Bool
unfolding last_item nostream
should_skip_event (tuple (cons v (cons w items))) = nostream (last_item w items)
should_skip_event v = false

-- `event_data`: the second item of a tuple, or what is no tuple
event_data : Value → Option Value
event_data (tuple (cons v (cons w items))) = some w
event_data (tuple items) = none
event_data v = some v

unfoldable pub shows_interrupt : Value → Bool
unfolding event_data
shows_interrupt raw_event = elim (event_data raw_event) [
  | some (dict fields) ↦ is_some (get_field (codes "__interrupt__") fields)
  | _ ↦ false
]

-- `final_output` after a raw event
unfoldable pub next_output : Value → Option Value → Option Value
next_output (tuple (cons (str mode) (cons v items))) output =
    if text_eq mode (codes "values") then some v else output
next_output (tuple items) output = output
next_output v output = some v

-- One round of the loop: the server and the task after it, a wait for room in the queue, an exception, or
-- `CancelledError` while the store was awaited.
pub data Round : Type 0 where
  done : Server → Task → Round
  blocked : Round
  raised : Server → Round
  cut : Server → Round

-- the task after an event
abbrev pub noted : Task → Value → Task
noted t raw_event = record t {
  event_counter = t.event_counter + 1;
  final_output = next_output raw_event t.final_output;
  has_interrupt = t.has_interrupt || shows_interrupt raw_event;
}

stored_round : Option (Service × Write) → Service → Server → Text → Task → Round
stored_round none s srv run_id t = raised (record srv { service = s })
stored_round (some (s', lands)) s srv run_id t =
    done (record srv { service = s'; active_runs = insert run_id t srv.active_runs }) t
stored_round (some (s', fails)) s srv run_id t = raised (record srv { service = s' })
stored_round (some (s', abandoned)) s srv run_id t = cut (record srv { service = s' })

sent_round : Sent → Service → Server → Text → ℕ → Task → Value → Round
unfolding stored_round
sent_round (put_result waiting) s srv run_id now t raw_event = blocked
sent_round failed s srv run_id now t raw_event = raised (record srv { service = s })
sent_round _ s srv run_id now t raw_event =
    let event_id = generate_event_id run_id (t.event_counter + 1) in
    stored_round (store_event_from_raw s run_id now event_id raw_event t.only_interrupt_updates) s
      srv run_id (noted t raw_event)

unfoldable pub round : Server → Text → ℕ → Task → Value → Round
unfolding sent_round
round srv run_id now t raw_event =
    let event_id = generate_event_id run_id (t.event_counter + 1) in
    let (s, sent) =
      put_to_broker srv.service run_id now event_id raw_event t.only_interrupt_updates in
    if should_skip_event raw_event then done srv t else sent_round sent s srv run_id now t raw_event

then_do : Round → (Server → Task → Round) → Round
then_do (done srv t) next = next srv t
then_do r next = r

-- The loop over the raw events. The clock, which is only written to rows, is read once.
unfoldable pub all_rounds : Server → Text → ℕ → Task → List Value → Round
unfolding then_do round
all_rounds srv run_id now t [] = done srv t
all_rounds srv run_id now t (raw_event ∷ raw_events) =
    then_do (round srv run_id now t raw_event) (λ srv' t'. all_rounds srv' run_id now t' raw_events)

-- the status of the run and of its thread, in the database
unfoldable pub set_status : Server → Text → Text → Text → Text → Option Value → Option Text → Server
set_status srv run_id thread_id status thread_status output error = record srv {
  runs = update_run_status srv.runs run_id status output error;
  threads = set_thread_status srv.threads thread_id thread_status;
}

-- the task that has ended with an exception of the `finally` block
stays : Option Task → Text → Dict Task → Dict Task
stays none run_id active_runs = active_runs
stays (some t) run_id active_runs = insert run_id (record t { is_done = true }) active_runs

after_cleanup : Service × Write → Server → Text → Server
unfolding stays
after_cleanup (s, lands) srv run_id = record srv {
  service = s;
  active_runs = remove run_id srv.active_runs;
}
after_cleanup (s, w) srv run_id = record srv {
  service = s;
  active_runs = stays (lookup run_id srv.active_runs) run_id srv.active_runs;
}

-- the `finally` block: `active_runs.pop` is not reached when `cleanup_run` raises
unfoldable pub clean : Server → Text → ℕ → Server
unfolding after_cleanup
clean srv run_id now = after_cleanup (cleanup_run srv.service run_id now) srv run_id

-- `final_output or {}`
unfoldable pub output_of : Option Value → Value
output_of none = dict end
output_of (some v) = if is_truthy v then v else dict end

-- After the loop: `next` is whether the thread's state has a next node.
unfoldable pub finish : Server → Text → ℕ → Task → Bool → Server
unfolding set_status clean output_of
finish srv run_id now t next =
    let interrupted =
      set_status srv run_id t.thread_id (codes "interrupted") (codes "interrupted")
        (some (output_of t.final_output)) none in
    let completed =
      set_status srv run_id t.thread_id (codes "completed") (codes "idle")
        (some (output_of t.final_output)) none in
    clean (if t.has_interrupt || next then interrupted else completed) run_id now

-- After a signal; while `put` waits the task goes no further.
signalled : Service × Put → Server → Text → ℕ → Server
unfolding clean
signalled (s, waiting) srv run_id now = record srv { service = s }
signalled (s, p) srv run_id now = clean (record srv { service = s }) run_id now

-- `except asyncio.CancelledError`
unfoldable pub cancelled : Server → Text → ℕ → Task → Server
unfolding set_status signalled
cancelled srv run_id now t =
    signalled (signal_run_cancelled srv.service run_id now)
      (set_status srv run_id t.thread_id (codes "cancelled") (codes "idle") (some (dict end)) none)
      run_id now

-- `except Exception as e`, with the error's text
unfoldable pub fail : Server → Text → ℕ → Task → Text → Server
unfolding set_status signalled
fail srv run_id now t error =
    signalled (signal_run_error srv.service run_id now error)
      (set_status srv run_id t.thread_id (codes "failed") (codes "idle") (some (dict end))
        (some error))
      run_id now
