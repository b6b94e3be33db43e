-- ===== src/Streaming/Interrupts.antt =====
-- Which events of a graph are passed on, and in what shape they are stored and sent.
use open_langgraph_platform.Prelude.{
  ◌≡◌, ◌≢◌, refl, sym, ap, ◌∙◌, Bool, true, false, Option, none, some, arith, Text, codes, text_eq,
  Bool-cases, inl, inr, ◌⊎◌,
}
use open_langgraph_platform.Serializer.{serialize, serialize-serialize, serialize_some}
use open_langgraph_platform.Value.{
  Value, none_value, str, list, tuple, dict, nil, cons, field, end, get_field,
}
use open_langgraph_platform.Converter.{
  Message, stored_messages, create_messages_event, format_sse_message, convert_raw_to_sse,
  convert_stored_to_sse, create_end_event,
}
use open_langgraph_platform.Streaming.{
  Processed, pass, process_interrupt_updates, updates_event, interrupt_update,
}
use open_langgraph_platform.Streaming.Storing.{stored_event}

-- A tuple of a stream mode and a payload.
abbrev pub labelled : Text → Value → Value
labelled mode payload = tuple (cons (str mode) (cons payload nil))

-- The message of an event that was stored, if it is one of those that are stored.
pub replayed : (Value → Text) → Text → Text → Text → Value → Option Message
replayed to_str timestamp run_id event_id v = elim (stored_event event_id v) [
  | none ↦ none
  | some e ↦ convert_stored_to_sse to_str timestamp run_id e
]

-- An event in the stream mode "updates".
abbrev pub is_update : Value → Bool
is_update (tuple (cons (str mode) (cons update rest))) = text_eq mode (codes "updates")
is_update _ = false

-- What may come out of the filter for an event.
abbrev pub Filtered : Value → Processed → Type 0
Filtered raw_event (pass v) =
    (is_update v ≡ false) × ((is_update raw_event ≡ true) ⊎ (v ≡ raw_event))
Filtered raw_event _ = is_update raw_event ≡ true

updates-values : text_eq (codes "values") (codes "updates") ≡ false
unfolding text_eq
updates-values = refl

Filtered-interrupt :
    (raw_event update : Value) (o : Option Value)
    → is_update raw_event ≡ true
    → Filtered raw_event (interrupt_update o update)
unfolding interrupt_update
Filtered-interrupt raw_event update none u = u
Filtered-interrupt raw_event update (some v) u = ground (arith, updates-values)

Filtered-update :
    (raw_event update : Value)
    → is_update raw_event ≡ true
    → Filtered raw_event (updates_event update)
unfolding updates_event
Filtered-update raw_event (dict fields) u =
    Filtered-interrupt raw_event (dict fields) (get_field (codes "__interrupt__") fields) u
Filtered-update raw_event _ u = u

-- When only interrupts were asked for, no "updates" event is passed on, what is skipped or fails is
-- an "updates" event, and every other event is passed on unchanged.
pub only_interrupts :
    (raw_event : Value) → Filtered raw_event (process_interrupt_updates raw_event true)
unfolding process_interrupt_updates
only_interrupts (tuple (cons (str mode) (cons update rest))) =
    elim (Bool-cases (text_eq mode (codes "updates"))) [
      | inl u ↦ rw u (Filtered-update (tuple (cons (str mode) (cons update rest))) update u)
      | inr u ↦ rw u (u, inr refl)
    ]
only_interrupts _ = (refl, inr refl)

-- A replayed "values" event does not have the data of the live one: the client gets the payload
-- live, and a wrapper of it on replay.
pub values_differ :
    (to_str : Value → Text) (timestamp run_id event_id : Text) (payload : Value)
    → (convert_raw_to_sse event_id (labelled (codes "values") payload)
        ≡ some (format_sse_message (codes "values") payload event_id))
      × (replayed to_str timestamp run_id event_id (labelled (codes "values") payload)
          ≡ some (
              format_sse_message
                (codes "values")
                (dict (
                  field
                    (codes "type")
                    (str (codes "execution_values"))
                    (field (codes "chunk") payload end)))
                event_id))
unfolding convert_raw_to_sse stored_event convert_stored_to_sse text_eq get_field replayed serialize
values_differ to_str timestamp run_id event_id payload = (refl, rw (serialize-serialize payload))

-- A client is told that a run completed whatever its "end" event says, live and on replay: also for
-- a run that was cancelled or has failed.
pub end_says_completed :
    (to_str : Value → Text) (timestamp run_id event_id : Text) (payload : Value)
    → (convert_raw_to_sse event_id (labelled (codes "end") payload)
        ≡ some (create_end_event event_id))
      × (replayed to_str timestamp run_id event_id (labelled (codes "end") payload)
          ≡ some (create_end_event event_id))
unfolding convert_raw_to_sse stored_event convert_stored_to_sse text_eq get_field replayed serialize
end_says_completed to_str timestamp run_id event_id payload = (refl, refl)

stored_messages-some :
    (chunk metadata : Value) (event_id : Text)
    → chunk ≢ none_value
    → metadata ≢ none_value
    → stored_messages (some chunk) (some metadata) event_id
      ≡ some (create_messages_event (tuple (cons chunk (cons metadata nil))) event_id)
unfolding stored_messages
stored_messages-some chunk metadata event_id h k = ground arith

serialize_pair :
    (chunk metadata : Value)
    → serialize (list (cons (serialize chunk) (cons (serialize metadata) nil)))
      ≡ serialize (list (cons chunk (cons metadata nil)))
unfolding serialize
serialize_pair chunk metadata = rw (serialize-serialize chunk, serialize-serialize metadata)

replayed_messages :
    (to_str : Value → Text) (timestamp run_id event_id : Text) (chunk metadata : Value)
    → replayed to_str timestamp run_id event_id
        (labelled (codes "messages") (tuple (cons chunk (cons metadata nil))))
      ≡ stored_messages (some (serialize chunk)) (some (serialize metadata)) event_id
unfolding stored_event convert_stored_to_sse text_eq get_field replayed serialize
replayed_messages to_str timestamp run_id event_id chunk metadata = refl

live_messages :
    (event_id : Text) (chunk metadata : Value)
    → convert_raw_to_sse event_id
        (labelled (codes "messages") (tuple (cons chunk (cons metadata nil))))
      ≡ some
          (format_sse_message (codes "messages") (list (cons chunk (cons metadata nil))) event_id)
unfolding convert_raw_to_sse create_messages_event text_eq
live_messages event_id chunk metadata = refl

-- A message chunk with its metadata is replayed as it was sent live, unless one of the two is `None`.
pub messages_agree :
    (to_str : Value → Text) (timestamp run_id event_id : Text) (chunk metadata : Value)
    → chunk ≢ none_value
    → metadata ≢ none_value
    → replayed to_str timestamp run_id event_id
        (labelled (codes "messages") (tuple (cons chunk (cons metadata nil))))
      ≡ convert_raw_to_sse event_id
          (labelled (codes "messages") (tuple (cons chunk (cons metadata nil))))
unfolding create_messages_event
messages_agree to_str timestamp run_id event_id chunk metadata h k =
    replayed_messages to_str timestamp run_id event_id chunk metadata
    ∙ stored_messages-some (serialize chunk) (serialize metadata) event_id (serialize_some chunk h)
        (serialize_some metadata k)
    ∙ ap (λ v. some (record { event = codes "messages"; body = v; id = event_id }))
        (serialize_pair chunk metadata)
    ∙ sym (live_messages event_id chunk metadata)
