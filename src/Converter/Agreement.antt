-- ===== src/Converter/Agreement.antt =====
-- How the live message and the replayed message of one event compare.
use open_langgraph_platform.Prelude.{◌≡◌, refl, some, arith, Text}
use open_langgraph_platform.Value.{Value, str, tuple, nil, cons}
use open_langgraph_platform.Converter.{
  Message, create_messages_event, create_in_mode, create_sse_event, parse_raw_event,
  convert_raw_to_sse,
}

id-create_messages_event :
    (payload : Value) (event_id : Text) → (create_messages_event payload event_id).id ≡ event_id
unfolding create_messages_event
id-create_messages_event (tuple (cons a (cons b nil))) event_id = refl
id-create_messages_event _ event_id = refl

id-create_in_mode :
    (mode : Text) (payload : Value) (event_id : Text) {m : Message}
    → create_in_mode mode payload event_id ≡ some m
    → m.id ≡ event_id
unfolding create_in_mode
id-create_in_mode mode payload event_id e =
    ground (arith, id-create_messages_event payload event_id)

id-create_sse_event :
    (mode payload : Value) (event_id : Text) {m : Message}
    → create_sse_event mode payload event_id ≡ some m
    → m.id ≡ event_id
unfolding create_sse_event
id-create_sse_event (str mode) payload event_id e = id-create_in_mode mode payload event_id e
id-create_sse_event _ payload event_id e = cc

-- A live message carries the id of its event.
pub id-convert_raw_to_sse :
    (event_id : Text) (raw_event : Value) {m : Message}
    → convert_raw_to_sse event_id raw_event ≡ some m
    → m.id ≡ event_id
unfolding convert_raw_to_sse
id-convert_raw_to_sse event_id raw_event e =
    id-create_sse_event (parse_raw_event raw_event).0 (parse_raw_event raw_event).1 event_id e
