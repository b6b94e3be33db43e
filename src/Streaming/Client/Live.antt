-- ===== src/Streaming/Client/Live.antt =====
-- The order of live events, and what a first connection is sent twice.
use open_langgraph_platform.Prelude.{
  ℕ, suc, ◌+◌, ◌≤◌, ◌<◌, ◌≡◌, false, none, some, List, [], ◌∷◌, ◌++◌, arith, Text, text_eq,
  text_eq_refl, if◌then◌else◌, Bool-cases, Option-cases, inl, inr,
}
use open_langgraph_platform.Prelude.Int.{ℤ, pos, pos_part, neg_part, leb_ℤ}
use open_langgraph_platform.Value.{Value}
use open_langgraph_platform.EventId.{extract_event_sequence}
use open_langgraph_platform.Broker.{Entry}
use open_langgraph_platform.Converter.{Message, convert_raw_to_sse}
use open_langgraph_platform.Converter.Agreement.{id-convert_raw_to_sse}
use open_langgraph_platform.Streaming.{Service}
use open_langgraph_platform.Streaming.Client.{
  Run, is_over, live_events, stream_live_events, replay_stored_events, stream_run_execution,
}

infix 50 ◌<ℤ◌
abbrev pub ◌<ℤ◌ : ℤ → ℤ → Type 0
a <ℤ b = pos_part a + neg_part b < pos_part b + neg_part a

abbrev pub sequence : Message → ℤ
sequence m = extract_event_sequence m.id

-- Each message has a larger sequence number than the one before it, and the first than `last`.
abbrev pub Increasing : ℤ → List Message → Type 0
Increasing last [] = Unit
Increasing last (m ∷ messages) = (last <ℤ sequence m) × Increasing (sequence m) messages

-- The live part of a stream sends each event once: sequence numbers strictly increase from the last
-- one that was sent before.
pub live_events-Increasing :
    (last_sent : ℤ) (events : List Entry) → Increasing last_sent (live_events last_sent events)
unfolding live_events
live_events-Increasing last_sent [] = tt
live_events-Increasing last_sent ((event_id, raw_event) ∷ events) =
    elim (Bool-cases (leb_ℤ (extract_event_sequence event_id) last_sent)) [
      | inl old ↦ rw old (live_events-Increasing last_sent events)
      | inr new ↦ rw new (elim (Option-cases (convert_raw_to_sse event_id raw_event)) [
        | inl e ↦ rw e (live_events-Increasing last_sent events)
        | inr (m, e) ↦ rw e (
            rw (id-convert_raw_to_sse event_id raw_event e)
              (ground arith, live_events-Increasing (extract_event_sequence event_id) events))
      ])
    ]

-- Some message has the id.
abbrev pub count_id : Text → List Message → ℕ
count_id id [] = 0
count_id id (m ∷ messages) =
    if text_eq m.id id then suc (count_id id messages) else count_id id messages

count_id-append :
    (id : Text) (xs ys : List Message) → count_id id (xs ++ ys) ≡ count_id id xs + count_id id ys
count_id-append id [] ys = omega arith
count_id-append id (m ∷ xs) ys = ground (arith, count_id-append id xs ys)

live_head :
    (event_id : Text) (raw_event : Value) (events : List Entry) {m : Message}
    → pos 0 <ℤ extract_event_sequence event_id
    → convert_raw_to_sse event_id raw_event ≡ some m
    → 1 ≤ count_id event_id (live_events (pos 0) ((event_id, raw_event) ∷ events))
unfolding live_events
live_head event_id raw_event events {m} h e =
    ground (arith, e, id-convert_raw_to_sse event_id raw_event e, text_eq_refl event_id)

stream_live_running :
    (s : Service) (run : Run) (now : ℕ) (last_sent : ℤ) (events : List Entry)
    → is_over run.status ≡ false
    → stream_live_events s run now last_sent events ≡ live_events last_sent events
unfolding stream_live_events
stream_live_running s run now last_sent events o = rw o

-- A client that connects for the first time is sent an event twice if the event is stored already
-- and still first in the broker's queue: the live part starts from sequence number 0, whatever the
-- replay has sent.
pub first_connection_repeats :
    (to_str : Value → Text) (timestamp : Text)
    → (s : Service) (run : Run) (now : ℕ) (event_id : Text) (raw_event : Value)
      (events : List Entry)
    → {m : Message} → is_over run.status ≡ false
    → pos 0 <ℤ extract_event_sequence event_id
    → convert_raw_to_sse event_id raw_event ≡ some m
    → 1 ≤ count_id event_id (replay_stored_events to_str timestamp s run.run_id none)
    → 2
      ≤ count_id event_id
          (stream_run_execution to_str timestamp s run now none ((event_id, raw_event) ∷ events))
unfolding stream_run_execution
first_connection_repeats to_str timestamp s run now event_id raw_event events o h e r =
    rw (stream_live_running s run now (pos 0) ((event_id, raw_event) ∷ events) o) (
      ground (
        arith,
        count_id-append event_id (replay_stored_events to_str timestamp s run.run_id none)
            (live_events (pos 0) ((event_id, raw_event) ∷ events)),
        live_head event_id raw_event events h e,
      ))
