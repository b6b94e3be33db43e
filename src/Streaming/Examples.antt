-- ===== src/Streaming/Examples.antt =====
-- The streaming service with one concrete run.
use open_langgraph_platform.Prelude.{
  ◌≤◌, ◌≡◌, ◌≢◌, refl, ap, Bool, true, false, none, some, [], ◌∷◌, arith, Text, codes, text_eq,
}
use open_langgraph_platform.Prelude.Int.{pos}
use open_langgraph_platform.Value.{Value, str, tuple, dict, nil, cons, field, end}
use open_langgraph_platform.Dict.{lookup}
use open_langgraph_platform.Broker.{Entry, block, Put, waiting}
use open_langgraph_platform.Broker
use open_langgraph_platform.BrokerManager.{get_or_create_broker}
use open_langgraph_platform.EventStore.{stream_all_events, order_by_seq}
use open_langgraph_platform.Converter.{
  format_sse_message, convert_raw_to_sse, convert_stored_to_sse,
}
use open_langgraph_platform.Streaming.{lands, Service}
use open_langgraph_platform.Streaming.Producer.{broker_put, signal_end}
use open_langgraph_platform.Streaming.Client.{Run, live_events, replay_stored_events}
use open_langgraph_platform.Streaming.Interrupts.{labelled}
use open_langgraph_platform.Streaming.Client.Live.{Increasing, count_id, live_events-Increasing}

abbrev to_str : Value → Text
to_str v = codes "None"

abbrev timestamp : Text
timestamp = codes "2026-01-01T00:00:00"

-- the ids of the run's first two events
abbrev first_id : Text
first_id = codes "r_event_1"

abbrev second_id : Text
second_id = codes "r_event_2"

abbrev interrupt_event : Value
interrupt_event =
    labelled (codes "updates")
      (dict (field (codes "__interrupt__") (tuple (cons (str (codes "1")) nil)) end))

abbrev values_event : Value
values_event = labelled (codes "values") (dict (field (codes "x") (str (codes "1")) end))

-- the first event is stored
abbrev service : Service
service = record {
  event_counters = (codes "r", pos 1) ∷ [];
  storage_batches = [];
  storage_batch_size = 2;
  manager = record { environment = record { queue_maxsize = none; policy = block }; brokers = [] };
  table =
      record {
        id = first_id;
        run_id = codes "r";
        seq = pos 1;
        event = codes "values";
        payload = dict (field (codes "x") (str (codes "1")) end);
        created_at = 0;
      }
      ∷ [];
  next_write = lands;
}

abbrev running : Run
running = record { run_id = codes "r"; status = codes "running" }

abbrev service_after : Service
service_after = record service {
  storage_batches =
      (
        codes "r",
        record {
          id = second_id;
          event = codes "values";
          payload = dict (
              field (codes "type") (str (codes "execution_values"))
                (field (codes "chunk") (dict (field (codes "x") (str (codes "1")) end)) end));
        }
            ∷ [],
      )
      ∷ [];
}

live_events-Increasing_example :
    Increasing
      (pos 1)
      (live_events (pos 1) ((first_id, values_event) ∷ (second_id, values_event) ∷ []))
live_events-Increasing_example =
    live_events-Increasing (pos 1) ((first_id, values_event) ∷ (second_id, values_event) ∷ [])

first_converts :
    convert_raw_to_sse first_id values_event
    ≡ some (
        format_sse_message
          (codes "values")
          (dict (field (codes "x") (str (codes "1")) end))
          first_id)
unfolding convert_raw_to_sse text_eq
first_converts = refl

first_stored :
    1 ≤ count_id first_id (replay_stored_events to_str timestamp service (codes "r") none)
unfolding replay_stored_events text_eq stream_all_events order_by_seq convert_stored_to_sse
first_stored = omega arith

abbrev cancelled_payload : Value
cancelled_payload = dict (field (codes "status") (str (codes "cancelled")) end)

abbrev is_waiting : Put → Bool
is_waiting waiting = true
is_waiting _ = false

room_test : is_waiting (signal_end service (codes "r") 9 end).1 ≡ false
unfolding signal_end broker_put Broker.put Broker.init get_or_create_broker lookup text_eq
room_test = refl

has_room : (signal_end service (codes "r") 9 end).1 ≢ waiting
has_room e = cc (ap is_waiting e, room_test)
