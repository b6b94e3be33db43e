-- ===== src/Streaming/Client.antt =====
-- services/streaming_service.py, the side of the client: `stream_run_execution`, without its
-- branches for exceptions and for a client that goes away.
pub mod Live
use open_langgraph_platform.Prelude.{
  ℕ, zero, suc, ◌+◌, ◌<◌, max, Bool, true, false, ◌&&◌, ◌||◌, not, Option, none, some, List, [],
  ◌∷◌, ◌++◌, Text, codes, text_eq, length, ltb, if◌then◌else◌, is_some, or_else,
}
use open_langgraph_platform.Prelude.Int.{ℤ, pos, negsuc, ltb_ℤ, leb_ℤ, suc_ℤ}
use open_langgraph_platform.Value
use open_langgraph_platform.Value.{
  Value, none_value, str, list, tuple, dict, Items, nil, cons, Fields, end, field, get_field,
}
use open_langgraph_platform.Dict.{Dict, lookup, insert}
use open_langgraph_platform.EventId.{generate_event_id, generate_event_id_ℤ, extract_event_sequence}
use open_langgraph_platform.Broker
use open_langgraph_platform.Broker.{RunBroker, Entry, Put, ignored, accepted, waiting, is_end}
use open_langgraph_platform.BrokerManager.{
  BrokerManager, get_or_create_broker, get_broker, set_broker, cleanup_broker,
}
use open_langgraph_platform.EventStore.{
  SseEvent, Row, Table, store_events, stream_events_since, stream_all_events,
}
use open_langgraph_platform.Converter.{
  Message, create_metadata_event, convert_raw_to_sse, convert_stored_to_sse,
}
use open_langgraph_platform.Streaming.{
  Service, batch_of, flush_storage_batch, Processed, pass, skip, type_error,
  process_interrupt_updates, counter_of, next_event_counter,
}

-- models/runs.py, as far as the stream reads it
pub record Run : Type 0 where
  pub run_id : Text
  pub status : Text

-- `run.status in ["completed", "failed", "cancelled", "interrupted"]`
abbrev pub is_over : Text → Bool
is_over status =
    text_eq status (codes "completed")
    || text_eq status (codes "failed")
    || text_eq status (codes "cancelled")
    || text_eq status (codes "interrupted")

-- The loop of `_stream_live_events` over the events that `aiter` gives.
unfoldable pub live_events : ℤ → List Entry → List Message
live_events last_sent [] = []
live_events last_sent ((event_id, raw_event) ∷ events) =
    let current = extract_event_sequence event_id in
    let skip = live_events last_sent events in
    let send = live_events current events in
    if leb_ℤ current last_sent
    then skip
    else elim (convert_raw_to_sse event_id raw_event) [ none ↦ skip | some m ↦ m ∷ send ]

unfoldable pub stream_live_events : Service → Run → ℕ → ℤ → List Entry → List Message
unfolding live_events
stream_live_events s run now last_sent events =
    let (m, b) = get_or_create_broker s.manager run.run_id now in
    if is_over run.status && b.finished then [] else live_events last_sent events

-- the loop of `_replay_stored_events`
abbrev row_event : Row → SseEvent
row_event r = record { id = r.id; event = r.event; payload = r.payload }

module _ (to_str : Value → Text) (timestamp : Text) where
  unfoldable pub convert_rows : Text → List Row → List Message
  convert_rows run_id [] = []
  convert_rows run_id (r ∷ rows) =
      let rest = convert_rows run_id rows in
      elim (convert_stored_to_sse to_str timestamp run_id (row_event r)) [
        | none ↦ rest
        | some m ↦ m ∷ rest
      ]

  -- `if last_event_id`: an empty id counts as none
  unfoldable pub replay_stored_events : Service → Text → Option Text → List Message
  unfolding convert_rows
  replay_stored_events s run_id none = convert_rows run_id (stream_all_events s.table run_id)
  replay_stored_events s run_id (some []) = convert_rows run_id (stream_all_events s.table run_id)
  replay_stored_events s run_id (some (c ∷ id)) =
      convert_rows run_id (stream_events_since s.table run_id (c ∷ id))

  first_messages : Text → Option Text → List Message
  first_messages run_id (some (c ∷ id)) = []
  first_messages run_id _ = create_metadata_event run_id (generate_event_id run_id 0) 1 ∷ []

  last_sent_of : Option Text → ℤ
  last_sent_of (some (c ∷ id)) = extract_event_sequence (c ∷ id)
  last_sent_of _ = pos 0

  -- All that the stream of a run yields; `events` are those that the broker's `aiter` gives it.
  unfoldable pub stream_run_execution : Service → Run → ℕ → Option Text → List Entry → List Message
  unfolding first_messages last_sent_of replay_stored_events stream_live_events
  stream_run_execution s run now last_event_id events =
      first_messages run.run_id last_event_id
      ++ (replay_stored_events s run.run_id last_event_id
          ++ stream_live_events s run now (last_sent_of last_event_id) events)
