-- ===== src/Streaming/Storing.antt =====
-- services/streaming_service.py: `store_event_from_raw`, which turns a raw event into a stored one.
pub mod Contents
pub mod Batches
use open_langgraph_platform.Prelude.{
  ℕ, zero, suc, ◌+◌, ◌<◌, max, Bool, true, false, ◌&&◌, ◌||◌, not, Option, none, some, List, [],
  ◌∷◌, ◌++◌, Text, codes, text_eq, length, ltb, if◌then◌else◌, is_some, or_else,
}
use open_langgraph_platform.Prelude.Int.{ℤ, pos, negsuc, ltb_ℤ, leb_ℤ, suc_ℤ}
use open_langgraph_platform.Value
use open_langgraph_platform.Serializer.{serialize}
use open_langgraph_platform.Value.{
  Value, none_value, str, list, tuple, dict, Items, nil, cons, Fields, end, field, get_field,
}
use open_langgraph_platform.Dict.{Dict, lookup, insert}
use open_langgraph_platform.EventId.{generate_event_id, generate_event_id_ℤ, extract_event_sequence}
use open_langgraph_platform.Broker
use open_langgraph_platform.Broker.{RunBroker, Entry, Put, ignored, accepted, waiting, is_end}
use open_langgraph_platform.BrokerManager.{
  BrokerManager, get_or_create_broker, get_broker, set_broker, cleanup_broker,
}
use open_langgraph_platform.EventStore.{
  SseEvent, Row, Table, store_events, stream_events_since, stream_all_events,
}
use open_langgraph_platform.Converter.{
  Message, create_metadata_event, convert_raw_to_sse, convert_stored_to_sse,
}
use open_langgraph_platform.Streaming.{
  Write, lands, Service, batch_of, flush_storage_batch, Processed, pass, skip, type_error,
  process_interrupt_updates, counter_of, next_event_counter,
}

-- The tuple of a processed event taken apart: node path, stream mode and payload.
pub record Parsed : Type 0 where
  pub node_path : Value
  pub mode : Value
  pub payload : Value

unfoldable pub parse_processed : Value → Parsed
parse_processed (tuple (cons mode (cons payload nil))) = record {
  node_path = none_value;
  mode = mode;
  payload = payload;
}
parse_processed (tuple (cons node (cons mode (cons payload nil)))) = record {
  node_path = node;
  mode = mode;
  payload = payload;
}
parse_processed (tuple _) = record {
  node_path = none_value;
  mode = none_value;
  payload = none_value;
}
parse_processed v = record { node_path = none_value; mode = str (codes "values"); payload = v }

message_chunk : Value → Value
message_chunk (tuple (cons chunk rest)) = chunk
message_chunk v = v

message_metadata : Value → Value
message_metadata (tuple (cons chunk (cons metadata rest))) = metadata
message_metadata v = none_value

as_fields : Value → Fields
as_fields (dict fields) = fields
as_fields v = end

abbrev value_or : Option Value → Value → Value
value_or none d = d
value_or (some v) d = v

-- `build_sse_event`; serializing never fails on these values
abbrev build_sse_event : Text → Text → Value → SseEvent
build_sse_event event_id event payload = record {
  id = event_id;
  event = event;
  payload = serialize payload;
}

stored_in_mode : Text → Parsed → Text → Option SseEvent
unfolding message_chunk message_metadata as_fields
stored_in_mode mode p event_id =
    if text_eq mode (codes "messages")
    then some (
        build_sse_event event_id (codes "messages") (
          dict (
            field (codes "type") (str (codes "messages_stream")) (
              field (codes "message_chunk") (message_chunk p.payload) (
                field (codes "metadata") (message_metadata p.payload)
                  (field (codes "node_path") p.node_path end))))))
    else if text_eq mode (codes "values") || text_eq mode (codes "updates")
    then some (
        build_sse_event event_id (codes "values") (
          dict (
            field (codes "type") (str (codes "execution_values"))
              (field (codes "chunk") p.payload end))))
    else if text_eq mode (codes "end")
    then some (
        build_sse_event event_id (codes "end") (
          dict (
            field (codes "type") (str (codes "run_complete")) (
              field (codes "status")
                (value_or (get_field (codes "status") (as_fields p.payload))
                  (str (codes "completed")))
                (field (codes "final_output")
                  (value_or (get_field (codes "final_output") (as_fields p.payload)) none_value)
                  end)))))
    else none

-- The event that is stored for a processed event, if its mode is one of those that are stored.
unfoldable pub stored_event : Text → Value → Option SseEvent
unfolding stored_in_mode parse_processed
stored_event event_id v =
    let p = parse_processed v in
    elim p.mode [ str mode ↦ stored_in_mode mode p event_id | _ ↦ none ]

-- `setdefault(run_id, []).append(event)`, and a flush, which only an "end" forces
store_processed : Option SseEvent → Service → Text → ℕ → Service × Write
unfolding flush_storage_batch
store_processed none s run_id now = (s, lands)
store_processed (some e) s run_id now =
    flush_storage_batch
      (record s { storage_batches = insert run_id (batch_of s run_id ++ e ∷ []) s.storage_batches })
      run_id now (text_eq e.event (codes "end"))

after_processing : Processed → Service → Text → ℕ → Text → Option (Service × Write)
unfolding store_processed
after_processing skip s run_id now event_id = some (s, lands)
after_processing type_error s run_id now event_id = none
after_processing (pass v) s run_id now event_id =
    some (store_processed (stored_event event_id v) s run_id now)

-- `none` is the `TypeError` of the interrupt test; a write that does not land is an exception, too.
unfoldable pub store_event_from_raw :
    Service → Text → ℕ → Text → Value → Bool → Option (Service × Write)
unfolding after_processing
store_event_from_raw s run_id now event_id raw_event only_interrupt_updates =
    after_processing (process_interrupt_updates raw_event only_interrupt_updates) s run_id now
      event_id
