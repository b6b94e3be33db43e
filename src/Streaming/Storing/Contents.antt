-- ===== src/Streaming/Storing/Contents.antt =====
-- services/event_store.py and the batches of services/streaming_service.py: which run, event and payload are
-- stored or wait under an id.
use open_langgraph_platform.Prelude.{
  ℕ, ◌≡◌, ◌≢◌, ◌⊎◌, refl, ◌∙◌, ap, sym, Bool, true, ◌||◌, not, ◌&&◌, Option, none, some, List, [],
  ◌∷◌, ◌++◌, arith, Text, text_eq, text_eq_refl, text_eq_iff, if◌then◌else◌, is_some, any, ltb,
  length, Bool-cases, inl, inr,
}
use open_langgraph_platform.Value.{Value}
use open_langgraph_platform.Dict.{insert, lookup-insert}
use open_langgraph_platform.EventStore.{
  SseEvent, Row, Table, has_id, build_insert_row, build_insert_rows, insert_row, insert_rows,
  store_events,
}
use open_langgraph_platform.Streaming.{
  Write, lands, fails, abandoned, Service, batch_of, await_store, flush_batch,
}

-- the run, the event and the payload
abbrev pub Content : Type 0
Content = Text × (Text × Value)

abbrev pub row_content : Text → Table → Option Content
row_content event_id [] = none
row_content event_id (r ∷ t) =
    if text_eq r.id event_id then some (r.run_id, (r.event, r.payload)) else row_content event_id t

abbrev pub event_content : Text → Text → List SseEvent → Option Content
event_content run_id event_id [] = none
event_content run_id event_id (e ∷ events) =
    if text_eq e.id event_id
    then some (run_id, (e.event, e.payload))
    else event_content run_id event_id events

abbrev pub first : Option Content → Option Content → Option Content
first none later = later
first (some c) later = some c

pub first_assoc : (a b c : Option Content) → first (first a b) c ≡ first a (first b c)
first_assoc none b c = refl
first_assoc (some x) b c = refl

pub first_none : (a : Option Content) → first a none ≡ a
first_none none = refl
first_none (some x) = refl

-- What is stored under the id or waits in the run's batch.
abbrev pub seen : Service → Text → Text → Option Content
seen s run_id event_id =
    first (row_content event_id s.table) (event_content run_id event_id (batch_of s run_id))

pub has_id-row_content :
    (event_id : Text) (t : Table) → has_id event_id t ≡ is_some (row_content event_id t)
has_id-row_content event_id [] = refl
has_id-row_content event_id (r ∷ t) = ground (arith, has_id-row_content event_id t)

any-event_content :
    (run_id event_id : Text) (events : List SseEvent)
    → any (λ e. text_eq e.id event_id) events ≡ is_some (event_content run_id event_id events)
any-event_content run_id event_id [] = refl
any-event_content run_id event_id (e ∷ events) =
    ground (arith, any-event_content run_id event_id events)

is_some-first : (a b : Option Content) → is_some (first a b) ≡ (is_some a || is_some b)
is_some-first none b = refl
is_some-first (some x) b = refl

pub held_seen :
    (s : Service) (run_id event_id : Text)
    → (has_id event_id s.table || any (λ e. text_eq e.id event_id) (batch_of s run_id))
      ≡ is_some (seen s run_id event_id)
held_seen s run_id event_id =
    rw (has_id-row_content event_id s.table, any-event_content run_id event_id (batch_of s run_id))
      (sym (
        is_some-first (row_content event_id s.table)
          (event_content run_id event_id (batch_of s run_id))))

row_content-append :
    (event_id : Text) (t : Table) (r : Row)
    → row_content event_id (t ++ r ∷ [])
      ≡ first (row_content event_id t) (row_content event_id (r ∷ []))
row_content-append event_id [] r = refl
row_content-append event_id (q ∷ t) r = elim (Bool-cases (text_eq q.id event_id)) [
  | inl p ↦ rw p refl
  | inr p ↦ rw p (row_content-append event_id t r)
]

taken :
    (event_id : Text) (t : Table) (o : Option Content)
    → has_id event_id t ≡ true
    → row_content event_id t ≡ first (row_content event_id t) o
taken event_id [] o h = cc
taken event_id (q ∷ t) o h = elim (Bool-cases (text_eq q.id event_id)) [
  | inl p ↦ rw p refl
  | inr p ↦ rw p (taken event_id t o (rw p at h))
]

row_content-insert_row :
    (event_id : Text) (t : Table) (r : Row)
    → row_content event_id (insert_row t r)
      ≡ first (row_content event_id t) (row_content event_id (r ∷ []))
unfolding insert_row
row_content-insert_row event_id t r = elim (Bool-cases (has_id r.id t)) [
  | inr p ↦ rw p (row_content-append event_id t r)
  | inl p ↦ rw p (elim (Bool-cases (text_eq r.id event_id)) [
    | inr q ↦ rw q (sym (first_none (row_content event_id t)))
    | inl q ↦
        taken event_id t (row_content event_id (r ∷ []))
          (ap (λ k. has_id k t) (sym ((text_eq_iff r.id event_id).0 q)) ∙ p)
  ])
]

row_content-insert_rows :
    (event_id run_id : Text) (now : ℕ) (t : Table) (events : List SseEvent)
    → row_content event_id (insert_rows t (build_insert_rows run_id now events))
      ≡ first (row_content event_id t) (event_content run_id event_id events)
unfolding insert_rows build_insert_rows build_insert_row
row_content-insert_rows event_id run_id now t [] = sym (first_none (row_content event_id t))
row_content-insert_rows event_id run_id now t (e ∷ events) =
    let r = build_insert_row run_id now e in
    row_content-insert_rows event_id run_id now (insert_row t r) events
    ∙ ap (λ a. first a (event_content run_id event_id events)) (row_content-insert_row event_id t r)
    ∙ first_assoc (row_content event_id t) (row_content event_id (r ∷ []))
        (event_content run_id event_id events)
    ∙ ap (first (row_content event_id t))
        (elim (Bool-cases (text_eq e.id event_id)) [ inl p ↦ rw p refl | inr p ↦ rw p refl ])

-- What `store_events` stores under an id that the table does not have yet.
row_content-store_events :
    (event_id run_id : Text) (now : ℕ) (t : Table) (events : List SseEvent)
    → row_content event_id (store_events t run_id now events)
      ≡ first (row_content event_id t) (event_content run_id event_id events)
unfolding store_events
row_content-store_events event_id run_id now t [] = sym (first_none (row_content event_id t))
row_content-store_events event_id run_id now t (e ∷ events) =
    row_content-insert_rows event_id run_id now t (e ∷ events)

pub batch-flushed :
    (s : Service) (run_id : Text) (batch : List SseEvent) (t : Table)
    → batch_of
        (record s { storage_batches = insert run_id batch s.storage_batches; table = t })
        run_id
      ≡ batch
batch-flushed s run_id batch t =
    ground (arith, lookup-insert run_id run_id batch s.storage_batches, text_eq_refl run_id)

-- What a flush has done: all that was seen still is, or the batch, which the table does not have, is lost.
pub record Flushed (batch : List SseEvent) (s s' : Service) (run_id : Text) : Type 0 where
  pub same : (event_id : Text) → seen s' run_id event_id ≡ seen s run_id event_id
  pub next : s'.next_write ≡ s.next_write
  pub small : (batch_of s' run_id ≡ batch) ⊎ (batch_of s' run_id ≡ [])

pub record Lost (s s' : Service) (run_id : Text) : Type 0 where
  pub empty : batch_of s' run_id ≡ []
  pub table : s'.table ≡ s.table
  pub unlucky : s.next_write ≢ lands

abbrev pub FlushedOr : Write → List SseEvent → Service → Service → Text → Type 0
FlushedOr lands batch s s' run_id = Flushed batch s s' run_id
FlushedOr w batch s s' run_id = Lost s s' run_id

await_store-FlushedOr :
    (w : Write) (batch : List SseEvent) (s : Service) (run_id : Text) (now : ℕ)
    → s.next_write ≡ w
    → batch_of s run_id ≡ batch
    → let emptied = record s { storage_batches = insert run_id [] s.storage_batches } in
      FlushedOr
        (await_store w emptied run_id now batch).1
        batch
        s
        (await_store w emptied run_id now batch).0
        run_id
unfolding await_store
await_store-FlushedOr lands batch s run_id now e b = record {
  same = λ event_id.
      ap
        (λ l.
          first (row_content event_id (store_events s.table run_id now batch))
            (event_content run_id event_id l))
        (batch-flushed s run_id [] (store_events s.table run_id now batch))
      ∙ first_none (row_content event_id (store_events s.table run_id now batch))
      ∙ row_content-store_events event_id run_id now s.table batch
      ∙ ap (λ l. first (row_content event_id s.table) (event_content run_id event_id l)) (sym b);
  next = refl;
  small = inr (batch-flushed s run_id [] (store_events s.table run_id now batch));
}
await_store-FlushedOr fails batch s run_id now e b = record {
  empty = batch-flushed s run_id [] s.table;
  table = refl;
  unlucky = λ h. cc;
}
await_store-FlushedOr abandoned batch s run_id now e b = record {
  empty = batch-flushed s run_id [] s.table;
  table = refl;
  unlucky = λ h. cc;
}

pub flush_batch-FlushedOr :
    (batch : List SseEvent) (s : Service) (run_id : Text) (now : ℕ) (force : Bool)
    → batch_of s run_id ≡ batch
    → FlushedOr
        (flush_batch batch s run_id now force).1
        batch
        s
        (flush_batch batch s run_id now force).0
        run_id
unfolding flush_batch
flush_batch-FlushedOr [] s run_id now force b = record {
  same = λ event_id. refl;
  next = refl;
  small = inl b;
}
flush_batch-FlushedOr (e ∷ batch) s run_id now force b =
    elim (Bool-cases (not force && ltb (length (e ∷ batch)) s.storage_batch_size)) [
      | inl p ↦ simp p (record { same = λ event_id. refl; next = refl; small = inl b })
      | inr p ↦ simp p (await_store-FlushedOr s.next_write (e ∷ batch) s run_id now refl b)
    ]
