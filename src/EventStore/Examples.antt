-- ===== src/EventStore/Examples.antt =====
-- A table with the events of two concrete runs.
use open_langgraph_platform.Prelude.{
  ℕ, ◌≡◌, refl, List, [], ◌∷◌, ◌++◌, Text, codes, text_eq, filter, starts_with, some,
}
use open_langgraph_platform.Prelude.Int.{pos, leb_ℤ}
use open_langgraph_platform.Value.{str}
use open_langgraph_platform.EventId.{int, split_last}
use open_langgraph_platform.EventStore.{
  SseEvent, Row, Table, last_seq_of, order_by_seq, stream_events_since, stream_all_events,
  get_run_info,
}
use open_langgraph_platform.EventStore.Replay.{replay_resumes}
use open_langgraph_platform.EventStore.Writes.{IsKeyed}

abbrev row_of : Text → Text → ℕ → Row
row_of id run_id seq = record {
  id = id;
  run_id = run_id;
  seq = pos seq;
  event = codes "values";
  payload = str id;
  created_at = 0;
}

-- the run "a" with its events out of order, and one event of the run "b"
abbrev table : Table
table =
    row_of (codes "a_event_2") (codes "a") 2
    ∷ row_of (codes "b_event_1") (codes "b") 1
    ∷ row_of (codes "a_event_1") (codes "a") 1
    ∷ []

abbrev event_of_a : Text → SseEvent
event_of_a id = record { id = id; event = codes "values"; payload = str id }

abbrev events : List SseEvent
events = event_of_a (codes "a_event_2") ∷ event_of_a (codes "a_event_3") ∷ []

table-IsKeyed : IsKeyed table
unfolding text_eq
table-IsKeyed = (refl, (refl, (refl, tt)))

-- the three events 1, 2 and 4 count as four
info_test :
    get_run_info (row_of (codes "a_event_4") (codes "a") 4 ∷ table) (codes "a")
    ≡ some (record {
      run_id = codes "a";
      event_count = pos 4;
      last_event_time = some 0;
      last_event_id = some (codes "a_event_4");
    })
unfolding get_run_info text_eq
info_test = refl

replay_resumes_example :
    filter
        (λ r. leb_ℤ r.seq (last_seq_of (codes "a_event_1")))
        (stream_all_events table (codes "a"))
      ++ stream_events_since table (codes "a") (codes "a_event_1")
    ≡ stream_all_events table (codes "a")
replay_resumes_example = replay_resumes table (codes "a") (codes "a_event_1")

since_test :
    stream_events_since table (codes "a") (codes "a_event_1")
    ≡ row_of (codes "a_event_2") (codes "a") 2 ∷ []
unfolding stream_events_since order_by_seq int split_last starts_with text_eq
since_test = refl
