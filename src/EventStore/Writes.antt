-- ===== src/EventStore/Writes.antt =====
-- What storing and deleting events changes.
use open_langgraph_platform.Prelude.{
  ℕ, ◌≡◌, ◌≢◌, refl, ap, ◌∙◌, true, false, ◌||◌, List, [], ◌∷◌, ◌++◌, arith, Text, text_eq,
  text_eq_iff, text_eq_refl, filter, filter-append, any, any-append, All, not, if◌then◌else◌,
  Bool-cases, inl, inr,
}
use mathlib.Core.List.{append-nil}
use open_langgraph_platform.EventStore.{
  SseEvent, Row, Table, has_id, of_run, insert_row, insert_rows, build_insert_row,
  build_insert_rows, store_events, order_by_seq, stream_all_events, cleanup_events,
}

-- No id stands twice in the table: its primary key.
abbrev pub IsKeyed : Table → Type 0
IsKeyed [] = Unit
IsKeyed (r ∷ t) = (has_id r.id t ≡ false) × IsKeyed t

has_id-insert_row :
    (event_id : Text) (t : Table) (r : Row)
    → has_id event_id (insert_row t r) ≡ (has_id event_id t || text_eq r.id event_id)
unfolding insert_row
has_id-insert_row event_id t r =
    ground (arith, any-append (λ s. text_eq s.id event_id) t (r ∷ []), text_eq_iff r.id event_id)

append-IsKeyed : (t : Table) (r : Row) → has_id r.id t ≡ false → IsKeyed t → IsKeyed (t ++ r ∷ [])
append-IsKeyed [] r h k = (refl, tt)
append-IsKeyed (s ∷ t) r h k = ground (
  arith,
  append-IsKeyed t r,
  any-append (λ q. text_eq q.id s.id) t (r ∷ []),
  text_eq_iff s.id r.id,
  text_eq_iff r.id s.id,
)

insert_rows-IsKeyed : (t : Table) (rows : List Row) → IsKeyed t → IsKeyed (insert_rows t rows)
unfolding insert_rows
insert_rows-IsKeyed t [] k = k
insert_rows-IsKeyed t (r ∷ rows) k = insert_rows-IsKeyed (insert_row t r) rows (
    unfold insert_row in
    elim (Bool-cases (has_id r.id t)) [ inl h ↦ rw h k | inr h ↦ rw h (append-IsKeyed t r h k) ])

-- Storing events never puts an id into the table twice.
pub store_events-IsKeyed :
    (t : Table) (run_id : Text) (now : ℕ) (events : List SseEvent)
    → IsKeyed t
    → IsKeyed (store_events t run_id now events)
unfolding store_events
store_events-IsKeyed t run_id now [] k = k
store_events-IsKeyed t run_id now (e ∷ events) k =
    insert_rows-IsKeyed t (build_insert_rows run_id now (e ∷ events)) k

-- All ids of the rows are in the table.
abbrev Holds : Table → List Row → Type 0
Holds t rows = All (λ r. has_id r.id t ≡ true) rows

insert_row-keeps :
    (t : Table) (r s : Row) → has_id s.id t ≡ true → has_id s.id (insert_row t r) ≡ true
insert_row-keeps t r s h = ground (arith, has_id-insert_row s.id t r)

insert_rows-keeps :
    (t : Table) (rows : List Row) (s : Row)
    → has_id s.id t ≡ true
    → has_id s.id (insert_rows t rows) ≡ true
unfolding insert_rows
insert_rows-keeps t [] s h = h
insert_rows-keeps t (r ∷ rows) s h =
    insert_rows-keeps (insert_row t r) rows s (insert_row-keeps t r s h)

insert_row-has : (t : Table) (r : Row) → has_id r.id (insert_row t r) ≡ true
insert_row-has t r = ground (arith, has_id-insert_row r.id t r, text_eq_refl r.id)

insert_rows-Holds : (t : Table) (rows : List Row) → Holds (insert_rows t rows) rows
unfolding insert_rows
insert_rows-Holds t [] = tt
insert_rows-Holds t (r ∷ rows) = (
  insert_rows-keeps (insert_row t r) rows r (insert_row-has t r),
  insert_rows-Holds (insert_row t r) rows,
)

insert_rows_held : (t : Table) (rows : List Row) → Holds t rows → insert_rows t rows ≡ t
unfolding insert_rows insert_row
insert_rows_held t [] h = refl
insert_rows_held t (r ∷ rows) h = rw h.0 (insert_rows_held t rows h.1)

-- The ids do not depend on the time.
Holds-later :
    (t : Table) (run_id : Text) (now later : ℕ) (events : List SseEvent)
    → Holds t (build_insert_rows run_id now events)
    → Holds t (build_insert_rows run_id later events)
unfolding build_insert_rows
Holds-later t run_id now later [] h = tt
Holds-later t run_id now later (e ∷ events) h = (h.0, Holds-later t run_id now later events h.1)

-- Storing the same events again, at any later time, changes nothing: a retry is safe.
pub store_events_twice :
    (t : Table) (run_id : Text) (now later : ℕ) (events : List SseEvent)
    → store_events (store_events t run_id now events) run_id later events
      ≡ store_events t run_id now events
unfolding store_events
store_events_twice t run_id now later [] = refl
store_events_twice t run_id now later (e ∷ events) =
    insert_rows_held (insert_rows t (build_insert_rows run_id now (e ∷ events)))
      (build_insert_rows run_id later (e ∷ events))
      (Holds-later (insert_rows t (build_insert_rows run_id now (e ∷ events))) run_id now later
        (e ∷ events) (insert_rows-Holds t (build_insert_rows run_id now (e ∷ events))))

foreign_row :
    (other : Text) (t : Table) (r : Row)
    → of_run other r ≡ false
    → filter (of_run other) (insert_row t r) ≡ filter (of_run other) t
unfolding insert_row
foreign_row other t r h = elim (Bool-cases (has_id r.id t)) [
  | inl p ↦ rw p
  | inr p ↦ rw p (filter-append (of_run other) t (r ∷ []) ∙ rw h (append-nil _))
]

foreign_rows :
    (run_id other : Text) (now : ℕ) (events : List SseEvent) (t : Table)
    → text_eq run_id other ≡ false
    → filter (of_run other) (insert_rows t (build_insert_rows run_id now events))
      ≡ filter (of_run other) t
unfolding insert_rows build_insert_rows
foreign_rows run_id other now [] t h = refl
foreign_rows run_id other now (e ∷ events) t h =
    foreign_rows run_id other now events (insert_row t (build_insert_row run_id now e)) h
    ∙ foreign_row other t (build_insert_row run_id now e) h

-- Storing a run's events leaves what every other run is replayed as it was.
pub store_events_other :
    (t : Table) (run_id other : Text) (now : ℕ) (events : List SseEvent)
    → run_id ≢ other
    → stream_all_events (store_events t run_id now events) other ≡ stream_all_events t other
unfolding store_events stream_all_events
store_events_other t run_id other now [] h = refl
store_events_other t run_id other now (e ∷ events) h =
    ap order_by_seq
      (foreign_rows run_id other now (e ∷ events) t (ground (arith, text_eq_iff run_id other)))

foreign_filter :
    (t : Table) (run_id other : Text)
    → filter (of_run other) (filter (λ r. not (of_run run_id r)) t)
      ≡ (if text_eq run_id other then [] else filter (of_run other) t)
foreign_filter [] run_id other = ground arith
foreign_filter (r ∷ t) run_id other = ground (
  arith,
  foreign_filter t run_id other,
  text_eq_iff run_id other,
  text_eq_iff r.run_id other,
  text_eq_iff r.run_id run_id,
)

-- Deleting a run's events leaves none of them, and every other run's.
pub cleanup_events_lem :
    (t : Table) (run_id other : Text)
    → stream_all_events (cleanup_events t run_id) other
      ≡ (if text_eq run_id other then [] else stream_all_events t other)
unfolding stream_all_events cleanup_events order_by_seq
cleanup_events_lem t run_id other = ap order_by_seq (foreign_filter t run_id other) ∙ ground arith

has_id-insert_rows :
    (event_id : Text) (t : Table) (rows : List Row)
    → has_id event_id (insert_rows t rows) ≡ (has_id event_id t || has_id event_id rows)
unfolding insert_rows
has_id-insert_rows event_id t [] = ground arith
has_id-insert_rows event_id t (r ∷ rows) =
    ground
      (arith, has_id-insert_rows event_id (insert_row t r) rows, has_id-insert_row event_id t r)

has_id-build_insert_rows :
    (event_id run_id : Text) (now : ℕ) (events : List SseEvent)
    → has_id event_id (build_insert_rows run_id now events)
      ≡ any (λ e. text_eq e.id event_id) events
unfolding build_insert_rows
has_id-build_insert_rows event_id run_id now [] = refl
has_id-build_insert_rows event_id run_id now (e ∷ events) =
    ground (arith, has_id-build_insert_rows event_id run_id now events)

-- The ids in the table after a store.
pub has_id-store_events :
    (event_id run_id : Text) (now : ℕ) (t : Table) (events : List SseEvent)
    → has_id event_id (store_events t run_id now events)
      ≡ (has_id event_id t || any (λ e. text_eq e.id event_id) events)
unfolding store_events
has_id-store_events event_id run_id now t [] = ground arith
has_id-store_events event_id run_id now t (e ∷ events) =
    has_id-insert_rows event_id t (build_insert_rows run_id now (e ∷ events))
    ∙ ap (λ b. has_id event_id t || b) (has_id-build_insert_rows event_id run_id now (e ∷ events))
