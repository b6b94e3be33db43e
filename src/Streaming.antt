-- ===== src/Streaming.antt =====
-- services/streaming_service.py: the service between the run loop, the brokers and the event store.
-- Its state is held together with the two singletons that it calls, `broker_manager` and
-- `event_store`. `now` is the clock. Here: the state, the batches, the filter on interrupts and the
-- event counters.
pub mod Storing
pub mod Producer
pub mod Client
pub mod Interrupts
mod Examples
use open_langgraph_platform.Prelude.{
  ℕ, zero, suc, ◌+◌, ◌<◌, max, Bool, true, false, ◌&&◌, ◌||◌, not, Option, none, some, List, [],
  ◌∷◌, ◌++◌, Text, codes, text_eq, length, ltb, if◌then◌else◌, is_some, or_else,
}
use open_langgraph_platform.Prelude.Int.{ℤ, pos, negsuc, ltb_ℤ, leb_ℤ, suc_ℤ}
use open_langgraph_platform.Value
use open_langgraph_platform.Value.{
  Value, none_value, str, list, tuple, dict, Items, nil, cons, Fields, end, field, get_field,
}
use open_langgraph_platform.Dict.{Dict, lookup, insert}
use open_langgraph_platform.EventId.{generate_event_id, generate_event_id_ℤ, extract_event_sequence}
use open_langgraph_platform.Broker
use open_langgraph_platform.Broker.{RunBroker, Entry, Put, ignored, accepted, waiting, is_end}
use open_langgraph_platform.BrokerManager.{
  BrokerManager, get_or_create_broker, get_broker, set_broker, cleanup_broker,
}
use open_langgraph_platform.EventStore.{
  SseEvent, Row, Table, store_events, stream_events_since, stream_all_events,
}
use open_langgraph_platform.Converter.{
  Message, create_metadata_event, convert_raw_to_sse, convert_stored_to_sse,
}

-- What becomes of the `store_events` that is awaited next: it commits, it raises, or the task that awaits it is
-- cancelled before it commits.
pub data Write : Type 0 where
  lands fails abandoned : Write

pub record Service : Type 0 where
  pub event_counters : Dict ℤ
  pub storage_batches : Dict (List SseEvent)
  pub storage_batch_size : ℕ
  pub manager : BrokerManager
  pub table : Table
  -- the answer of the database
  pub next_write : Write

-- `_storage_batches.get(run_id, [])`
abbrev pub batch_of : Service → Text → List SseEvent
batch_of s run_id = or_else (lookup run_id s.storage_batches) []

-- `await event_store.store_events(run_id, batch)`; what does not land is an exception
unfoldable pub await_store : Write → Service → Text → ℕ → List SseEvent → Service × Write
await_store lands s run_id now batch =
    (record s { table = store_events s.table run_id now batch }, lands)
await_store fails s run_id now batch = (s, fails)
await_store abandoned s run_id now batch = (s, abandoned)

-- The batch is emptied before the store is awaited.
unfoldable pub flush_batch : List SseEvent → Service → Text → ℕ → Bool → Service × Write
unfolding await_store
flush_batch [] s run_id now force = (s, lands)
flush_batch (e ∷ batch) s run_id now force =
    if not force && ltb (length (e ∷ batch)) s.storage_batch_size
    then (s, lands)
    else await_store s.next_write
        (record s { storage_batches = insert run_id [] s.storage_batches }) run_id now (e ∷ batch)

unfoldable pub flush_storage_batch : Service → Text → ℕ → Bool → Service × Write
unfolding flush_batch
flush_storage_batch s run_id now force = flush_batch (batch_of s run_id) s run_id now force

-- The outcome of `_process_interrupt_updates`: the event to pass on, a skip, or the `TypeError` of
-- `len` on an interrupt without a length.
pub data Processed : Type 0 where
  pass : Value → Processed
  skip : Processed
  type_error : Processed

-- the test on `len(raw_event[1].get("__interrupt__", []))`
interrupt_update : Option Value → Value → Processed
interrupt_update none update = skip
interrupt_update (some v) update = elim (Value.len v) [
  | none ↦ type_error
  | some zero ↦ skip
  | some (suc n) ↦ pass (tuple (cons (str (codes "values")) (cons update nil)))
]

updates_event : Value → Processed
unfolding interrupt_update
updates_event (dict fields) =
    interrupt_update (get_field (codes "__interrupt__") fields) (dict fields)
updates_event _ = skip

unfoldable pub process_interrupt_updates : Value → Bool → Processed
unfolding updates_event
process_interrupt_updates (tuple (cons (str mode) (cons update rest))) only_interrupt_updates =
    if text_eq mode (codes "updates") && only_interrupt_updates
    then updates_event update
    else pass (tuple (cons (str mode) (cons update rest)))
process_interrupt_updates raw_event only_interrupt_updates = pass raw_event

abbrev pub counter_of : Service → Text → ℤ
counter_of s run_id = or_else (lookup run_id s.event_counters) (pos 0)

unfoldable pub next_event_counter : Service → Text → Text → Service
next_event_counter s run_id event_id =
    let idx = extract_event_sequence event_id in
    if ltb_ℤ (counter_of s run_id) idx
    then record s { event_counters = insert run_id idx s.event_counters }
    else s
