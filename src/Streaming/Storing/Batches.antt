-- ===== src/Streaming/Storing/Batches.antt =====
-- services/streaming_service.py: events wait in a batch before they are stored, and what becomes of them.
use open_langgraph_platform.Prelude.{
  ℕ, ◌≤◌, ◌<◌, ◌≡◌, refl, ◌∙◌, ap, sym, Bool, true, ◌&&◌, ◌||◌, not, Option, none, some, List, [],
  ◌∷◌, ◌++◌, arith, Text, codes, text_eq, text_eq_refl, any, length, ltb, is_some, Bool-cases, inl,
  inr,
}
use mathlib.Core.Path.{subst}
use open_langgraph_platform.Value.{Value}
use open_langgraph_platform.Dict.{insert}
use open_langgraph_platform.EventStore.{SseEvent, has_id, store_events}
use open_langgraph_platform.Streaming.{
  Write, lands, fails, abandoned, Service, batch_of, await_store, flush_batch, Processed, pass,
  skip, type_error, process_interrupt_updates,
}
use open_langgraph_platform.Streaming.Storing.{
  stored_event, store_processed, after_processing, store_event_from_raw,
}
use open_langgraph_platform.Streaming.Storing.Contents.{
  Content, row_content, event_content, first, first_none, first_assoc, seen, held_seen,
  batch-flushed, Lost, FlushedOr, flush_batch-FlushedOr,
}

-- The event is in the table or in the run's batch.
abbrev pub held : Service → Text → Text → Bool
held s run_id event_id =
    has_id event_id s.table || any (λ e. text_eq e.id event_id) (batch_of s run_id)

-- the service after `setdefault(run_id, []).append(event)`
abbrev pub appended : Service → Text → SseEvent → Service
appended s run_id e = record s {
  storage_batches = insert run_id (batch_of s run_id ++ e ∷ []) s.storage_batches;
}

event_content-append :
    (run_id event_id : Text) (batch : List SseEvent) (e : SseEvent)
    → event_content run_id event_id (batch ++ e ∷ [])
      ≡ first (event_content run_id event_id batch) (event_content run_id event_id (e ∷ []))
event_content-append run_id event_id [] e = refl
event_content-append run_id event_id (q ∷ batch) e = elim (Bool-cases (text_eq q.id event_id)) [
  | inl p ↦ rw p refl
  | inr p ↦ rw p (event_content-append run_id event_id batch e)
]

seen-appended :
    (s : Service) (run_id event_id : Text) (e : SseEvent)
    → seen (appended s run_id e) run_id event_id
      ≡ first (seen s run_id event_id) (event_content run_id event_id (e ∷ []))
seen-appended s run_id event_id e =
    ap (λ l. first (row_content event_id s.table) (event_content run_id event_id l))
      (batch-flushed s run_id (batch_of s run_id ++ e ∷ []) s.table)
    ∙ ap (first (row_content event_id s.table))
        (event_content-append run_id event_id (batch_of s run_id) e)
    ∙ sym (
        first_assoc (row_content event_id s.table)
          (event_content run_id event_id (batch_of s run_id))
          (event_content run_id event_id (e ∷ [])))

-- The event that `store_event_from_raw` makes of a raw event.
abbrev pub event_of : Text → Processed → Option SseEvent
event_of event_id (pass v) = stored_event event_id v
event_of event_id _ = none

-- what an event stores under an id
abbrev pub content_of : Text → Text → Option SseEvent → Option Content
content_of run_id event_id none = none
content_of run_id event_id (some e) = event_content run_id event_id (e ∷ [])

-- What the service has after a raw event was stored or put into the batch.
pub record Kept (s s' : Service) (run_id : Text) (o : Option SseEvent) : Type 0 where
  -- under every id what was stored or waited before, and else the event, with its run, name and payload
  pub contents :
      (event_id : Text)
      → seen s' run_id event_id ≡ first (seen s run_id event_id) (content_of run_id event_id o)
  pub next : s'.next_write ≡ s.next_write
  -- the batch is below its size
  pub small :
      length (batch_of s run_id) < s.storage_batch_size
      → length (batch_of s' run_id) < s.storage_batch_size

-- The event is kept when the write landed, and else the batch is lost and nothing else.
abbrev pub KeptOr : Write → Service → Service → Text → Option SseEvent → Type 0
KeptOr lands s s' run_id o = Kept s s' run_id o
KeptOr w s s' run_id o = Lost s s' run_id

Kept-refl : (s : Service) (run_id : Text) → Kept s s run_id none
Kept-refl s run_id = record {
  contents = λ event_id. sym (first_none (seen s run_id event_id));
  next = refl;
  small = λ h. h;
}

pub await_store-empty :
    (w : Write) (s : Service) (run_id : Text) (now : ℕ) (batch : List SseEvent)
    → batch_of
        (await_store w
          (record s { storage_batches = insert run_id [] s.storage_batches })
          run_id
          now
          batch).0
        run_id
      ≡ []
unfolding await_store
await_store-empty lands s run_id now batch =
    batch-flushed s run_id [] (store_events s.table run_id now batch)
await_store-empty fails s run_id now batch = batch-flushed s run_id [] s.table
await_store-empty abandoned s run_id now batch = batch-flushed s run_id [] s.table

flush_batch-small :
    (batch : List SseEvent) (s : Service) (run_id : Text) (now : ℕ) (force : Bool)
    → batch_of s run_id ≡ batch
    → 1 ≤ s.storage_batch_size
    → length (batch_of (flush_batch batch s run_id now force).0 run_id) < s.storage_batch_size
unfolding flush_batch
flush_batch-small [] s run_id now force b p = ground (arith, b)
flush_batch-small (e ∷ batch) s run_id now force b p =
    elim (Bool-cases (not force && ltb (length (e ∷ batch)) s.storage_batch_size)) [
      | inl q ↦ rw (q, b) (ground (arith, q))
      | inr q ↦ rw (q, await_store-empty s.next_write s run_id now (e ∷ batch)) p
    ]

added :
    (w : Write) (e : SseEvent) (s t : Service) (run_id : Text)
    → (1 ≤ s.storage_batch_size → length (batch_of t run_id) < s.storage_batch_size)
    → FlushedOr w (batch_of (appended s run_id e) run_id) (appended s run_id e) t run_id
    → KeptOr w s t run_id (some e)
added lands e s t run_id small f = record {
  contents = λ event_id. f.same event_id ∙ seen-appended s run_id event_id e;
  next = f.next;
  small = λ h. small (omega (arith, h));
}
added fails e s t run_id small f = record { empty = f.empty; table = f.table; unlucky = f.unlucky }
added abandoned e s t run_id small f = record {
  empty = f.empty;
  table = f.table;
  unlucky = f.unlucky;
}

KeptOr-store_processed :
    (o : Option SseEvent) (s : Service) (run_id : Text) (now : ℕ)
    → KeptOr (store_processed o s run_id now).1 s (store_processed o s run_id now).0 run_id o
unfolding store_processed
KeptOr-store_processed none s run_id now = Kept-refl s run_id
KeptOr-store_processed (some e) s run_id now =
    let a = appended s run_id e in
    let b = batch_of a run_id in
    added (flush_batch b a run_id now (text_eq e.event (codes "end"))).1 e s
      (flush_batch b a run_id now (text_eq e.event (codes "end"))).0 run_id
      (λ one. flush_batch-small b a run_id now (text_eq e.event (codes "end")) refl one)
      (flush_batch-FlushedOr b a run_id now (text_eq e.event (codes "end")) refl)

pair_eq : {p q : Service × Write} → some p ≡ some q → p ≡ q
pair_eq e = cc

KeptOr-processed :
    (p : Processed) (s : Service) (run_id event_id : Text) (now : ℕ) {q : Service × Write}
    → after_processing p s run_id now event_id ≡ some q
    → KeptOr q.1 s q.0 run_id (event_of event_id p)
unfolding after_processing
KeptOr-processed skip s run_id event_id now e =
    subst (λ (q : Service × Write). KeptOr q.1 s q.0 run_id none) (pair_eq e) (Kept-refl s run_id)
KeptOr-processed type_error s run_id event_id now e = cc
KeptOr-processed (pass v) s run_id event_id now e =
    subst (λ (q : Service × Write). KeptOr q.1 s q.0 run_id (stored_event event_id v)) (pair_eq e)
      (KeptOr-store_processed (stored_event event_id v) s run_id now)

pub store_event_from_raw-Kept :
    (s s' : Service) (run_id event_id : Text) (now : ℕ) (raw_event : Value) (only : Bool)
    (w : Write)
    → store_event_from_raw s run_id now event_id raw_event only ≡ some (s', w)
    → KeptOr w s s' run_id (event_of event_id (process_interrupt_updates raw_event only))
unfolding store_event_from_raw
store_event_from_raw-Kept s s' run_id event_id now raw_event only w e =
    KeptOr-processed (process_interrupt_updates raw_event only) s run_id event_id now e

-- What follows for the ids alone.
some_first : (a b : Option Content) → is_some a ≡ true → is_some (first a b) ≡ true
some_first none b h = cc
some_first (some x) b h = h

later_first : (a : Option Content) (c : Content) → is_some (first a (some c)) ≡ true
later_first none c = refl
later_first (some x) c = refl

pub Kept-old :
    (s s' : Service) (run_id event_id : Text) (o : Option SseEvent)
    → Kept s s' run_id o
    → held s run_id event_id ≡ true
    → held s' run_id event_id ≡ true
Kept-old s s' run_id event_id o k h =
    held_seen s' run_id event_id
    ∙ ap is_some (k.contents event_id)
    ∙ some_first (seen s run_id event_id) _ (sym (held_seen s run_id event_id) ∙ h)

abbrev pub IsStored : Option SseEvent → Service → Text → Type 0
IsStored none s run_id = Unit
IsStored (some e) s run_id = held s run_id e.id ≡ true

own_content :
    (run_id : Text) (e : SseEvent)
    → event_content run_id e.id (e ∷ []) ≡ some (run_id, (e.event, e.payload))
own_content run_id e = rw (text_eq_refl e.id) refl

pub Kept-new :
    (o : Option SseEvent) (s s' : Service) (run_id : Text)
    → Kept s s' run_id o
    → IsStored o s' run_id
Kept-new none s s' run_id k = tt
Kept-new (some e) s s' run_id k =
    held_seen s' run_id e.id
    ∙ ap is_some (k.contents e.id ∙ ap (first (seen s run_id e.id)) (own_content run_id e))
    ∙ later_first (seen s run_id e.id) (run_id, (e.event, e.payload))
