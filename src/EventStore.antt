-- ===== src/EventStore.antt =====
-- services/event_store.py: the stored events of all runs, as the rows of the table `run_events`. The
-- database is PostgreSQL: `id` is its primary key, and rows of equal `seq` come in the order of the
-- table (SQL leaves it open). Times are seconds.
pub mod Sort
pub mod Replay
pub mod Writes
mod Examples
use open_langgraph_platform.Prelude.{
  ℕ, zero, suc, ◌+◌, Bool, true, false, ◌&&◌, ◌||◌, not, Option, none, some, List, [], ◌∷◌, ◌++◌,
  Text, text_eq, filter, any, ltb, if◌then◌else◌, ◌-◌, leb,
}
use open_langgraph_platform.Prelude.Int.{ℤ, pos, negsuc, leb_ℤ, ltb_ℤ, pos_part, neg_part}
use open_langgraph_platform.Value.{Value}
use open_langgraph_platform.EventId.{int, split_last, or_zero}

-- core/sse.py, `SSEEvent`
pub record SseEvent : Type 0 where
  pub id : Text
  pub event : Text
  pub payload : Value

pub record Row : Type 0 where
  pub id : Text
  pub run_id : Text
  pub seq : ℤ
  pub event : Text
  pub payload : Value
  pub created_at : ℕ

abbrev pub Table : Type 0
Table = List Row

-- `except Exception: return 0`
unfoldable pub extract_event_seq : Text → ℤ
unfolding int split_last or_zero
extract_event_seq event_id = or_zero (int (split_last event_id))

unfoldable pub build_insert_row : Text → ℕ → SseEvent → Row
unfolding extract_event_seq
build_insert_row run_id now e = record {
  id = e.id;
  run_id = run_id;
  seq = extract_event_seq e.id;
  event = e.event;
  payload = e.payload;
  created_at = now;
}

abbrev pub has_id : Text → Table → Bool
has_id event_id t = any (λ r. text_eq r.id event_id) t

-- `INSERT … ON CONFLICT (id) DO NOTHING`, one row
unfoldable pub insert_row : Table → Row → Table
insert_row t r = if has_id r.id t then t else t ++ r ∷ []

unfoldable pub insert_rows : Table → List Row → Table
unfolding insert_row
insert_rows t [] = t
insert_rows t (r ∷ rows) = insert_rows (insert_row t r) rows

unfoldable pub build_insert_rows : Text → ℕ → List SseEvent → List Row
unfolding build_insert_row
build_insert_rows run_id now [] = []
build_insert_rows run_id now (e ∷ events) =
    build_insert_row run_id now e ∷ build_insert_rows run_id now events

-- No statement is executed for an empty list.
unfoldable pub store_events : Table → Text → ℕ → List SseEvent → Table
unfolding insert_rows build_insert_rows
store_events t run_id now [] = t
store_events t run_id now (e ∷ events) = insert_rows t (build_insert_rows run_id now (e ∷ events))

unfoldable pub store_event : Table → Text → ℕ → SseEvent → Table
unfolding store_events
store_event t run_id now e = store_events t run_id now (e ∷ [])

-- `ORDER BY seq ASC`
unfoldable pub insert_sorted : Row → List Row → List Row
insert_sorted r [] = r ∷ []
insert_sorted r (s ∷ rows) = if leb_ℤ r.seq s.seq then r ∷ s ∷ rows else s ∷ insert_sorted r rows

unfoldable pub order_by_seq : List Row → List Row
unfolding insert_sorted
order_by_seq [] = []
order_by_seq (r ∷ rows) = insert_sorted r (order_by_seq rows)

abbrev pub of_run : Text → Row → Bool
of_run run_id r = text_eq r.run_id run_id

-- `except Exception: last_seq = -1`
unfoldable pub last_seq_of : Text → ℤ
last_seq_of last_event_id = elim (int (split_last last_event_id)) [ none ↦ negsuc 0 | some n ↦ n ]

unfoldable pub stream_events_since : Table → Text → Text → List Row
unfolding last_seq_of
stream_events_since t run_id last_event_id =
    order_by_seq (filter (λ r. of_run run_id r && ltb_ℤ (last_seq_of last_event_id) r.seq) t)

unfoldable pub stream_all_events : Table → Text → List Row
stream_all_events t run_id = order_by_seq (filter (of_run run_id) t)

unfoldable pub cleanup_events : Table → Text → Table
cleanup_events t run_id = filter (λ r. not (of_run run_id r)) t

-- `created_at < NOW() - INTERVAL '1 hour'`
unfoldable pub cleanup_old_runs : Table → ℕ → Table
cleanup_old_runs t now = filter (λ r. not (ltb (r.created_at + 3600) now)) t

-- `MIN(seq)` and `MAX(seq)`
min_seq : List Row → Option ℤ
min_seq [] = none
min_seq (r ∷ rows) = elim (min_seq rows) [
  | none ↦ some r.seq
  | some m ↦ some (if leb_ℤ r.seq m then r.seq else m)
]

max_seq : List Row → Option ℤ
max_seq [] = none
max_seq (r ∷ rows) = elim (max_seq rows) [
  | none ↦ some r.seq
  | some m ↦ some (if leb_ℤ m r.seq then r.seq else m)
]

-- `seq = :last_seq LIMIT 1`
row_at : ℤ → List Row → Option Row
row_at seq [] = none
row_at seq (r ∷ rows) = if leb_ℤ r.seq seq && leb_ℤ seq r.seq then some r else row_at seq rows

-- last - first + 1
span : ℤ → ℤ → ℤ
span first last =
    let up = pos_part last + neg_part first + 1 in
    let down = neg_part last + pos_part first in
    if leb down up then pos (up - down) else negsuc (down - up - 1)

pub record RunInfo : Type 0 where
  pub run_id : Text
  pub event_count : ℤ
  pub last_event_time : Option ℕ
  pub last_event_id : Option Text

unfoldable pub get_run_info : Table → Text → Option RunInfo
unfolding min_seq max_seq row_at span
get_run_info t run_id =
    let rows = filter (of_run run_id) t in
    elim (max_seq rows) [
      | none ↦ none
      | some last ↦
          let found = row_at last rows in
          some (record {
            run_id = run_id;
            event_count = elim (min_seq rows) [ none ↦ pos 0 | some first ↦ span first last ];
            last_event_time = elim found [ none ↦ none | some r ↦ some r.created_at ];
            last_event_id = elim found [ none ↦ none | some r ↦ some r.id ];
          })
    ]
