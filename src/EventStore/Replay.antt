-- ===== src/EventStore/Replay.antt =====
-- What a client is replayed when it connects again.
use open_langgraph_platform.Prelude.{
  ◌≡◌, refl, sym, ap, ◌∙◌, Bool, true, ◌&&◌, List, [], ◌∷◌, ◌++◌, arith, Text, filter, All,
}
use open_langgraph_platform.Prelude.Int.{ℤ, leb_ℤ, ltb_ℤ}
use open_langgraph_platform.EventStore.{
  Row, Table, of_run, last_seq_of, order_by_seq, stream_events_since, stream_all_events,
}
use open_langgraph_platform.EventStore.Sort.{
  ◌≤ℤ◌, IsSorted, order_by_seq-IsSorted, filter-order_by_seq,
}

filter-filter :
    (p q : Row → Bool) (rows : List Row) → filter (λ r. p r && q r) rows ≡ filter q (filter p rows)
filter-filter p q [] = refl
filter-filter p q (r ∷ rows) = ground (arith, filter-filter p q rows)

-- The rows after `k`, all of them.
All-after :
    (k : ℤ) (a : ℤ) (rows : List Row)
    → ltb_ℤ k a ≡ true
    → All (λ s. a ≤ℤ s.seq) rows
    → (filter (λ r. ltb_ℤ k r.seq) rows ≡ rows) × (filter (λ r. leb_ℤ r.seq k) rows ≡ [])
All-after k a [] h v = (refl, refl)
All-after k a (r ∷ rows) h v = ground (arith, All-after k a rows h v.1)

split_at :
    (k : ℤ) (rows : List Row)
    → IsSorted rows
    → filter (λ r. leb_ℤ r.seq k) rows ++ filter (λ r. ltb_ℤ k r.seq) rows ≡ rows
split_at k [] v = refl
split_at k (r ∷ rows) v =
    ground (arith, split_at k rows v.1, λ (h : ltb_ℤ k r.seq ≡ true). All-after k r.seq rows h v.0)

since-eq-filter :
    (t : Table) (run_id last_event_id : Text)
    → stream_events_since t run_id last_event_id
      ≡ filter (λ r. ltb_ℤ (last_seq_of last_event_id) r.seq) (stream_all_events t run_id)
unfolding stream_events_since stream_all_events
since-eq-filter t run_id last_event_id =
    ap order_by_seq (filter-filter (of_run run_id) (λ r. ltb_ℤ (last_seq_of last_event_id) r.seq) t)
    ∙ sym (
        filter-order_by_seq (λ r. ltb_ℤ (last_seq_of last_event_id) r.seq)
          (filter (of_run run_id) t))

-- A client that has seen a run's stored events up to its last event id, and is then replayed the
-- events since that id, has seen the run's stored events in order, none missing and none twice.
pub replay_resumes :
    (t : Table) (run_id last_event_id : Text)
    → filter (λ r. leb_ℤ r.seq (last_seq_of last_event_id)) (stream_all_events t run_id)
        ++ stream_events_since t run_id last_event_id
      ≡ stream_all_events t run_id
replay_resumes t run_id last_event_id = rw since-eq-filter (
    split_at (last_seq_of last_event_id) (stream_all_events t run_id)
      (unfold stream_all_events in order_by_seq-IsSorted (filter (of_run run_id) t)))
