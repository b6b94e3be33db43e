-- ===== src/Streaming/Producer.antt =====
-- services/streaming_service.py, the side of the run: `put_to_broker`, the signals and `cleanup_run`.
pub mod Cancel
pub mod Cleanup
use open_langgraph_platform.Prelude.{
  ℕ, zero, suc, ◌+◌, ◌<◌, max, Bool, true, false, ◌&&◌, ◌||◌, not, Option, none, some, List, [],
  ◌∷◌, ◌++◌, Text, codes, text_eq, length, ltb, if◌then◌else◌, is_some, or_else,
}
use open_langgraph_platform.Prelude.Int.{ℤ, pos, negsuc, ltb_ℤ, leb_ℤ, suc_ℤ}
use open_langgraph_platform.Value
use open_langgraph_platform.Value.{
  Value, none_value, str, list, tuple, dict, Items, nil, cons, Fields, end, field, get_field,
}
use open_langgraph_platform.Dict.{Dict, lookup, insert}
use open_langgraph_platform.EventId.{generate_event_id, generate_event_id_ℤ, extract_event_sequence}
use open_langgraph_platform.Broker
use open_langgraph_platform.Broker.{RunBroker, Entry, Put, ignored, accepted, waiting, is_end}
use open_langgraph_platform.BrokerManager.{
  BrokerManager, get_or_create_broker, get_broker, set_broker, cleanup_broker,
}
use open_langgraph_platform.EventStore.{
  SseEvent, Row, Table, store_events, stream_events_since, stream_all_events,
}
use open_langgraph_platform.Converter.{
  Message, create_metadata_event, convert_raw_to_sse, convert_stored_to_sse,
}
use open_langgraph_platform.Streaming.{
  Write, lands, Service, batch_of, flush_storage_batch, Processed, pass, skip, type_error,
  process_interrupt_updates, counter_of, next_event_counter,
}

-- `broker.put` on the run's broker: an accepted event changes the broker that all share. The
-- producer of a `waiting` event tries again on the broker (Broker/System).
take_put : Put → Service → Text → Service
take_put (accepted b) s run_id = record s { manager = set_broker s.manager run_id b }
take_put _ s run_id = s

unfoldable pub broker_put : Service → Text → RunBroker → Entry → Service × Put
unfolding take_put
broker_put s run_id b e = let p = Broker.put b e in (take_put p s run_id, p)

pub data Sent : Type 0 where
  put_result : Put → Sent
  skipped : Sent
  failed : Sent

put_processed : Processed → Service → Text → Text → RunBroker → Service × Sent
unfolding broker_put
put_processed skip s run_id event_id b = (s, skipped)
put_processed type_error s run_id event_id b = (s, failed)
put_processed (pass v) s run_id event_id b =
    let (s', p) = broker_put s run_id b (event_id, v) in (s', put_result p)

unfoldable pub put_to_broker : Service → Text → ℕ → Text → Value → Bool → Service × Sent
unfolding put_processed next_event_counter
put_to_broker s run_id now event_id raw_event only_interrupt_updates =
    let (m, b) = get_or_create_broker s.manager run_id now in
    let s' = next_event_counter (record s { manager = m }) run_id event_id in
    put_processed (process_interrupt_updates raw_event only_interrupt_updates) s' run_id event_id b

-- The end of a signal. While `put` waits for room nothing further happens.
after_put : Put → Service → Text → Service
after_put waiting s run_id = s
after_put p s run_id = record s { manager = cleanup_broker s.manager run_id }

-- `counter = event_counters.get(run_id, 0) + 1`, with the id of the counter's event
unfoldable pub signal_end : Service → Text → ℕ → Fields → Service × Put
unfolding broker_put after_put
signal_end s run_id now payload =
    let counter = suc_ℤ (counter_of s run_id) in
    let counted = record s { event_counters = insert run_id counter s.event_counters } in
    let (m, b) = get_or_create_broker counted.manager run_id now in
    let (s', p) =
      broker_put (record counted { manager = m }) run_id b
        (
          generate_event_id_ℤ run_id counter,
          tuple (cons (str (codes "end")) (cons (dict payload) nil)),
        ) in
    (after_put p s' run_id, p)

unfoldable pub signal_run_cancelled : Service → Text → ℕ → Service × Put
unfolding signal_end
signal_run_cancelled s run_id now =
    signal_end s run_id now (field (codes "status") (str (codes "cancelled")) end)

unfoldable pub signal_run_error : Service → Text → ℕ → Text → Service × Put
unfolding signal_end
signal_run_error s run_id now error_message =
    signal_end s run_id now (
      field (codes "status") (str (codes "failed")) (field (codes "error") (str error_message) end))

unfoldable pub is_run_streaming : Service → Text → Bool
is_run_streaming s run_id = elim (get_broker s.manager run_id) [
  | none ↦ false
  | some b ↦ not b.finished
]

-- The exception of a flush leaves the broker as it is.
after_flush : Service × Write → Text → Service × Write
after_flush (s, lands) run_id = (record s { manager = cleanup_broker s.manager run_id }, lands)
after_flush (s, w) run_id = (s, w)

unfoldable pub cleanup_run : Service → Text → ℕ → Service × Write
unfolding flush_storage_batch after_flush
cleanup_run s run_id now = after_flush (flush_storage_batch s run_id now true) run_id
