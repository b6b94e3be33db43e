-- ===== src/Streaming/Producer/Cleanup.antt =====
-- What `cleanup_run` leaves of a run, and what no signal and no event takes from the store.
use open_langgraph_platform.Prelude.{
  ℕ, ◌≡◌, refl, ◌∙◌, ap, sym, Bool, true, false, List, [], ◌∷◌, arith, Text,
}
use open_langgraph_platform.Value.{Value, Fields}
use open_langgraph_platform.Broker.{Put, ignored, accepted, waiting, RunBroker}
use open_langgraph_platform.BrokerManager.{get_or_create_broker}
use open_langgraph_platform.EventStore.{SseEvent}
use open_langgraph_platform.Streaming.{
  Write, lands, fails, abandoned, Service, batch_of, await_store, flush_batch, flush_storage_batch,
  next_event_counter, Processed, pass, skip, type_error, process_interrupt_updates,
}
use open_langgraph_platform.Streaming.Storing.Batches.{await_store-empty}
use open_langgraph_platform.Streaming.Storing.Contents.{
  row_content, event_content, first, first_none, seen, FlushedOr, flush_batch-FlushedOr,
}
use open_langgraph_platform.Streaming.Producer.{
  take_put, broker_put, put_processed, put_to_broker, after_put, after_flush, signal_end,
  is_run_streaming, cleanup_run,
}
use open_langgraph_platform.Streaming.Producer.Cancel.{stops}

flush_batch-empty :
    (batch : List SseEvent) (s : Service) (run_id : Text) (now : ℕ)
    → batch_of s run_id ≡ batch
    → batch_of (flush_batch batch s run_id now true).0 run_id ≡ []
unfolding flush_batch
flush_batch-empty [] s run_id now b = b
flush_batch-empty (e ∷ batch) s run_id now b =
    await_store-empty s.next_write s run_id now (e ∷ batch)

flush_batch-lands :
    (batch : List SseEvent) (s : Service) (run_id : Text) (now : ℕ)
    → s.next_write ≡ lands
    → (flush_batch batch s run_id now true).1 ≡ lands
unfolding flush_batch await_store
flush_batch-lands [] s run_id now l = refl
flush_batch-lands (e ∷ batch) s run_id now l = rw l refl

stored_content :
    (s : Service) (run_id event_id : Text)
    → batch_of s run_id ≡ []
    → row_content event_id s.table ≡ seen s run_id event_id
stored_content s run_id event_id b = sym (
    ap (λ l. first (row_content event_id s.table) (event_content run_id event_id l)) b
    ∙ first_none (row_content event_id s.table))

-- What `cleanup_run` leaves of a run when its write lands.
pub record Closed (s s' : Service) (run_id : Text) : Type 0 where
  -- nothing of the run waits in a batch
  pub empty : batch_of s' run_id ≡ []
  -- the run is not streaming
  pub closed : is_run_streaming s' run_id ≡ false
  -- what was stored or waited is in the table, unchanged
  pub contents : (event_id : Text) → row_content event_id s'.table ≡ seen s run_id event_id

after_flush-Closed :
    (w : Write) (batch : List SseEvent) (s t : Service) (run_id : Text)
    → w ≡ lands
    → batch_of t run_id ≡ []
    → FlushedOr w batch s t run_id
    → ((after_flush (t, w) run_id).1 ≡ lands) × Closed s (after_flush (t, w) run_id).0 run_id
unfolding after_flush
after_flush-Closed lands batch s t run_id l e f = (
  refl,
  record {
    empty = e;
    closed = stops t run_id;
    contents = λ event_id. stored_content t run_id event_id e ∙ f.same event_id;
  },
)
after_flush-Closed fails batch s t run_id l e f = cc
after_flush-Closed abandoned batch s t run_id l e f = cc

pub cleanup_run-Closed :
    (s : Service) (run_id : Text) (now : ℕ)
    → s.next_write ≡ lands
    → ((cleanup_run s run_id now).1 ≡ lands) × Closed s (cleanup_run s run_id now).0 run_id
unfolding cleanup_run flush_storage_batch
cleanup_run-Closed s run_id now l =
    let batch = batch_of s run_id in
    after_flush-Closed (flush_batch batch s run_id now true).1 batch s
      (flush_batch batch s run_id now true).0 run_id (flush_batch-lands batch s run_id now l)
      (flush_batch-empty batch s run_id now refl)
      (flush_batch-FlushedOr batch s run_id now true refl)

-- Two services with the same table, the same batches and the same answer of the database.
abbrev pub SameStore : Service → Service → Type 0
SameStore s s' =
    (s'.table ≡ s.table)
    × (s'.storage_batches ≡ s.storage_batches)
    × (s'.storage_batch_size ≡ s.storage_batch_size)
    × (s'.next_write ≡ s.next_write)

pub seen_same :
    (s s' : Service) (run_id event_id : Text)
    → SameStore s s'
    → seen s' run_id event_id ≡ seen s run_id event_id
seen_same s s' run_id event_id same = rw (same.0, same.1) refl

after_put-SameStore :
    (p : Put) (s : Service) (run_id : Text) → SameStore s (after_put p (take_put p s run_id) run_id)
unfolding after_put take_put
after_put-SameStore ignored s run_id = (refl, refl, refl, refl)
after_put-SameStore (accepted b) s run_id = (refl, refl, refl, refl)
after_put-SameStore waiting s run_id = (refl, refl, refl, refl)

-- A signal leaves the store alone.
pub signal_end-SameStore :
    (s : Service) (run_id : Text) (now : ℕ) (payload : Fields)
    → SameStore s (signal_end s run_id now payload).0
unfolding signal_end broker_put
signal_end-SameStore s run_id now payload =
    after_put-SameStore (signal_end s run_id now payload).1 _ run_id

take_put-SameStore : (p : Put) (s : Service) (run_id : Text) → SameStore s (take_put p s run_id)
unfolding take_put
take_put-SameStore ignored s run_id = (refl, refl, refl, refl)
take_put-SameStore (accepted b) s run_id = (refl, refl, refl, refl)
take_put-SameStore waiting s run_id = (refl, refl, refl, refl)

put_processed-SameStore :
    (p : Processed) (s : Service) (run_id event_id : Text) (b : RunBroker)
    → SameStore s (put_processed p s run_id event_id b).0
unfolding put_processed broker_put
put_processed-SameStore skip s run_id event_id b = (refl, refl, refl, refl)
put_processed-SameStore type_error s run_id event_id b = (refl, refl, refl, refl)
put_processed-SameStore (pass v) s run_id event_id b =
    take_put-SameStore (broker_put s run_id b (event_id, v)).1 s run_id

next_event_counter-SameStore :
    (s : Service) (run_id event_id : Text) → SameStore s (next_event_counter s run_id event_id)
unfolding next_event_counter
next_event_counter-SameStore s run_id event_id = ground arith

-- Offering an event to the broker leaves the store alone.
pub put_to_broker-SameStore :
    (s : Service) (run_id : Text) (now : ℕ) (event_id : Text) (raw_event : Value) (only : Bool)
    → SameStore s (put_to_broker s run_id now event_id raw_event only).0
unfolding put_to_broker
put_to_broker-SameStore s run_id now event_id raw_event only =
    let before =
      next_event_counter-SameStore
        (record s { manager = (get_or_create_broker s.manager run_id now).0 }) run_id event_id in
    let after =
      put_processed-SameStore (process_interrupt_updates raw_event only)
        (next_event_counter (record s { manager = (get_or_create_broker s.manager run_id now).0 })
          run_id event_id)
        run_id event_id (get_or_create_broker s.manager run_id now).1 in
    (after.0 ∙ before.0, after.1 ∙ before.1, after.2 ∙ before.2, after.3 ∙ before.3)
