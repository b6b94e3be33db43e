-- ===== src/Converter.antt =====
-- services/event_converter.py and the event constructors of core/sse.py: what a client is sent for a
-- raw event of a graph and for a stored event. A message is its event name, its data as the value
-- that the JSON text stands for, and its id. `timestamp` is the clock's text; `to_str` is Python's `str` on a value
-- that is no text.
pub mod Agreement
use open_langgraph_platform.Prelude.{
  ℕ, Bool, true, false, ◌||◌, Option, none, some, [], Text, codes, text_eq, if◌then◌else◌, is_some,
  or_else,
}
use open_langgraph_platform.Prelude.Int.{pos}
use open_langgraph_platform.Serializer.{serialize}
use open_langgraph_platform.Value.{
  Value, none_value, num, str, list, tuple, dict, Items, nil, cons, Fields, end, field, get_field,
  set_field,
}
use open_langgraph_platform.EventStore.{SseEvent}

pub record Message : Type 0 where
  pub event : Text
  pub body : Value
  pub id : Text

-- `json.dumps` writes a tuple as a list. A `None` on its own gives an empty data line.
abbrev pub format_sse_message : Text → Value → Text → Message
format_sse_message event payload id = record { event = event; body = serialize payload; id = id }

-- `create_metadata_event`
unfoldable pub create_metadata_event : Text → Text → ℕ → Message
create_metadata_event run_id event_id attempt =
    format_sse_message (codes "metadata")
      (dict (field (codes "run_id") (str run_id) (field (codes "attempt") (num (pos attempt)) end)))
      event_id

abbrev pub create_values_event : Value → Text → Message
create_values_event payload event_id = format_sse_message (codes "values") payload event_id

abbrev pub create_updates_event : Value → Text → Message
create_updates_event payload event_id = format_sse_message (codes "updates") payload event_id

abbrev pub create_events_event : Value → Text → Message
create_events_event payload event_id = format_sse_message (codes "events") payload event_id

abbrev pub create_state_event : Value → Text → Message
create_state_event payload event_id = format_sse_message (codes "state") payload event_id

abbrev pub create_logs_event : Value → Text → Message
create_logs_event payload event_id = format_sse_message (codes "logs") payload event_id

abbrev pub create_tasks_event : Value → Text → Message
create_tasks_event payload event_id = format_sse_message (codes "tasks") payload event_id

abbrev pub create_subgraphs_event : Value → Text → Message
create_subgraphs_event payload event_id = format_sse_message (codes "subgraphs") payload event_id

abbrev pub create_checkpoints_event : Value → Text → Message
create_checkpoints_event payload event_id =
    format_sse_message (codes "checkpoints") payload event_id

abbrev pub create_custom_event : Value → Text → Message
create_custom_event payload event_id = format_sse_message (codes "custom") payload event_id

unfoldable pub create_end_event : Text → Message
create_end_event event_id =
    format_sse_message (codes "end") (dict (field (codes "status") (str (codes "completed")) end))
      event_id

unfoldable pub create_error_event : Text → Text → Text → Message
create_error_event timestamp error event_id =
    format_sse_message (codes "error")
      (dict (field (codes "error") (str error) (field (codes "timestamp") (str timestamp) end)))
      event_id

-- a pair of a message chunk and its metadata becomes a list
unfoldable pub create_messages_event : Value → Text → Message
create_messages_event (tuple (cons chunk (cons metadata nil))) event_id =
    format_sse_message (codes "messages") (list (cons chunk (cons metadata nil))) event_id
create_messages_event payload event_id = format_sse_message (codes "messages") payload event_id

abbrev as_value : Option Value → Value
as_value none = none_value
as_value (some v) = v

-- the three entries of a checkpoint that `create_debug_event` reads off a config
checkpoint_of : Fields → Value
checkpoint_of configurable = dict (
    field (codes "thread_id") (as_value (get_field (codes "thread_id") configurable)) (
      field (codes "checkpoint_id") (as_value (get_field (codes "checkpoint_id") configurable)) (
        field (codes "checkpoint_ns")
          (or_else (get_field (codes "checkpoint_ns") configurable) (str [])) end)))

-- `config["configurable"]`, where both are dicts
configurable_of : Option Value → Option Fields
configurable_of (some (dict config)) = elim (get_field (codes "configurable") config) [
  | some (dict configurable) ↦ some configurable
  | _ ↦ none
]
configurable_of _ = none

add_checkpoint : Fields → Fields
unfolding checkpoint_of configurable_of
add_checkpoint payload =
    if is_some (get_field (codes "checkpoint") payload)
    then payload
    else elim (configurable_of (get_field (codes "config") payload)) [
      | none ↦ payload
      | some configurable ↦ set_field (codes "checkpoint") (checkpoint_of configurable) payload
    ]

parent_of : Option Value → Fields → Fields
unfolding checkpoint_of configurable_of
parent_of none payload = payload
parent_of (some none_value) payload = set_field (codes "parent_checkpoint") none_value payload
parent_of (some v) payload = elim (configurable_of (some v)) [
  | none ↦ payload
  | some configurable ↦ set_field (codes "parent_checkpoint") (checkpoint_of configurable) payload
]

add_parent_checkpoint : Fields → Fields
unfolding parent_of
add_parent_checkpoint payload =
    if is_some (get_field (codes "parent_checkpoint") payload)
    then payload
    else parent_of (get_field (codes "parent_config") payload) payload

-- Data that is no dict is passed on; the source relies on a dict here.
debug_body : Value → Value
unfolding add_checkpoint add_parent_checkpoint
debug_body (dict fields) = elim (get_field (codes "payload") fields) [
  | some (dict payload) ↦
      dict
        (set_field (codes "payload") (dict (add_parent_checkpoint (add_checkpoint payload))) fields)
  | _ ↦ dict fields
]
debug_body v = v

unfoldable pub create_debug_event : Value → Text → Message
unfolding debug_body
create_debug_event payload event_id =
    format_sse_message (codes "debug") (debug_body payload) event_id

-- `_parse_raw_event`: the stream mode and the payload
unfoldable pub parse_raw_event : Value → Value × Value
parse_raw_event (tuple (cons mode (cons payload nil))) = (mode, payload)
parse_raw_event (tuple (cons node (cons mode (cons payload nil)))) = (mode, payload)
parse_raw_event raw_event = (str (codes "values"), raw_event)

abbrev has_interrupt : Value → Bool
has_interrupt (dict fields) = is_some (get_field (codes "__interrupt__") fields)
has_interrupt _ = false

create_in_mode : Text → Value → Text → Option Message
unfolding create_messages_event create_debug_event create_end_event
create_in_mode mode payload event_id =
    if text_eq mode (codes "messages")
    then some (create_messages_event payload event_id)
    else if text_eq mode (codes "values")
    then some (create_values_event payload event_id)
    else if text_eq mode (codes "updates")
    then some (
        if has_interrupt payload
        then create_values_event payload event_id
        else create_updates_event payload event_id)
    else if text_eq mode (codes "state")
    then some (create_state_event payload event_id)
    else if text_eq mode (codes "logs")
    then some (create_logs_event payload event_id)
    else if text_eq mode (codes "tasks")
    then some (create_tasks_event payload event_id)
    else if text_eq mode (codes "subgraphs")
    then some (create_subgraphs_event payload event_id)
    else if text_eq mode (codes "debug")
    then some (create_debug_event payload event_id)
    else if text_eq mode (codes "events")
    then some (create_events_event payload event_id)
    else if text_eq mode (codes "checkpoints")
    then some (create_checkpoints_event payload event_id)
    else if text_eq mode (codes "custom")
    then some (create_custom_event payload event_id)
    else if text_eq mode (codes "end")
    then some (create_end_event event_id)
    else none

-- `_create_sse_event`: a mode that is no text equals none of the names
unfoldable pub create_sse_event : Value → Value → Text → Option Message
unfolding create_in_mode
create_sse_event (str mode) payload event_id = create_in_mode mode payload event_id
create_sse_event _ payload event_id = none

unfoldable pub convert_raw_to_sse : Text → Value → Option Message
unfolding parse_raw_event create_sse_event
convert_raw_to_sse event_id raw_event =
    let (mode, payload) = parse_raw_event raw_event in create_sse_event mode payload event_id

-- `_coerce_dict`
abbrev coerce_dict : Option Value → Fields
coerce_dict (some (dict fields)) = fields
coerce_dict _ = end

unfoldable pub stored_messages : Option Value → Option Value → Text → Option Message
unfolding create_messages_event
stored_messages none metadata event_id = none
stored_messages (some none_value) metadata event_id = none
stored_messages (some chunk) none event_id = some (create_messages_event chunk event_id)
stored_messages (some chunk) (some none_value) event_id =
    some (create_messages_event chunk event_id)
stored_messages (some chunk) (some metadata) event_id =
    some (create_messages_event (tuple (cons chunk (cons metadata nil))) event_id)

error_text : (Value → Text) → Option Value → Text
error_text to_str (some (str message)) = message
error_text to_str (some v) = to_str v
error_text to_str none = to_str none_value

-- `convert_stored_to_sse`; the service always passes the run's id
unfoldable pub convert_stored_to_sse : (Value → Text) → Text → Text → SseEvent → Option Message
unfolding stored_messages error_text create_end_event create_error_event create_metadata_event
    create_debug_event
convert_stored_to_sse to_str timestamp run_id e =
    let fields = coerce_dict (some e.payload) in
    let inner = λ (key : Text). dict (coerce_dict (get_field key fields)) in
    if text_eq e.event (codes "messages")
    then stored_messages (get_field (codes "message_chunk") fields)
        (get_field (codes "metadata") fields) e.id
    else if text_eq e.event (codes "values")
    then some (create_values_event (dict fields) e.id)
    else if text_eq e.event (codes "metadata")
    then some (create_metadata_event run_id e.id 1)
    else if text_eq e.event (codes "state")
    then some (create_state_event (inner (codes "state")) e.id)
    else if text_eq e.event (codes "logs")
    then some (create_logs_event (inner (codes "logs")) e.id)
    else if text_eq e.event (codes "tasks")
    then some (create_tasks_event (inner (codes "tasks")) e.id)
    else if text_eq e.event (codes "subgraphs")
    then some (create_subgraphs_event (inner (codes "subgraphs")) e.id)
    else if text_eq e.event (codes "debug")
    then some (create_debug_event (inner (codes "debug")) e.id)
    else if text_eq e.event (codes "events")
    then some (create_events_event (inner (codes "event")) e.id)
    else if text_eq e.event (codes "end")
    then some (create_end_event e.id)
    else if text_eq e.event (codes "error")
    then some
        (create_error_event timestamp (error_text to_str (get_field (codes "error") fields)) e.id)
    else none
