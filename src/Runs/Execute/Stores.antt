-- ===== src/Runs/Execute/Stores.antt =====
-- api/runs.py: what is stored of a run's events by the time its task has ended.
use mathlib.Core.Path.{subst}
use open_langgraph_platform.Prelude.{
  ℕ, suc, ◌+◌, ◌≡◌, refl, ap, ◌∙◌, sym, Bool, true, false, ◌||◌, Option, none, some, List, [], ◌∷◌,
  arith, is_some, Text, if◌then◌else◌, Bool-cases, inl, inr,
}
use open_langgraph_platform.Value.{Value}
use open_langgraph_platform.EventStore.{SseEvent, Table, has_id}
use open_langgraph_platform.Streaming.{lands, Service}
use open_langgraph_platform.Streaming.Storing.Batches.{held, content_of, IsStored}
use open_langgraph_platform.Streaming.Storing.Contents.{
  Content, row_content, first, first_none, first_assoc, seen, has_id-row_content, held_seen,
}
use open_langgraph_platform.Runs.{Task, Server}
use open_langgraph_platform.Runs.Execute.{
  should_skip_event, shows_interrupt, noted, Round, done, blocked, raised, cut, round, then_do,
  all_rounds, finish,
}
use open_langgraph_platform.Runs.Execute.Ends.{finish-Ended}
use open_langgraph_platform.Runs.Execute.Rounds.{numbered, Rounded, round-Rounded, done_eq}

-- The events that are not skipped have `Has`, each under its number from `n + 1` on.
abbrev pub AllNumbered : (Option SseEvent → Type 0) → Text → Bool → ℕ → List Value → Type 0
AllNumbered Has run_id only n [] = Unit
AllNumbered Has run_id only n (raw_event ∷ raw_events) =
    if should_skip_event raw_event
    then AllNumbered Has run_id only n raw_events
    else (Has (numbered run_id n only raw_event) × AllNumbered Has run_id only (n + 1) raw_events)

AllNumbered-map :
    {Has Has' : Option SseEvent → Type 0} (run_id : Text) (only : Bool) (n : ℕ)
    (raw_events : List Value)
    → ((o : Option SseEvent) → Has o → Has' o)
    → AllNumbered Has run_id only n raw_events
    → AllNumbered Has' run_id only n raw_events
AllNumbered-map run_id only n [] f v = tt
AllNumbered-map run_id only n (raw_event ∷ raw_events) f v =
    elim (Bool-cases (should_skip_event raw_event)) [
      | inl p ↦ rw p (AllNumbered-map run_id only n raw_events f (rw p at v))
      | inr p ↦
          let w = rw p at v in rw p (f _ w.0, AllNumbered-map run_id only (n + 1) raw_events f w.1)
    ]

-- What is not skipped.
abbrev pub counted : List Value → ℕ
counted [] = 0
counted (raw_event ∷ raw_events) =
    if should_skip_event raw_event then counted raw_events else suc (counted raw_events)

abbrev pub interrupts : List Value → Bool
interrupts [] = false
interrupts (raw_event ∷ raw_events) =
    if should_skip_event raw_event
    then interrupts raw_events
    else (shows_interrupt raw_event || interrupts raw_events)

-- What the loop has done when it has passed all events.
pub record Looped (run_id : Text) (raw_events : List Value) (srv : Server) (t : Task)
    (srv' : Server) (t' : Task) : Type 0 where
  -- it counted the events that are not skipped
  pub numbers : t'.event_counter ≡ t.event_counter + counted raw_events
  -- it noted whether one of them shows an interrupt
  pub noticed : t'.has_interrupt ≡ (t.has_interrupt || interrupts raw_events)
  -- what was stored or waited still is or does
  pub old :
      (event_id : Text)
      → held srv.service run_id event_id ≡ true
      → held srv'.service run_id event_id ≡ true
  -- so are and do they, under consecutive numbers
  pub new :
      AllNumbered
        (λ o. IsStored o srv'.service run_id)
        run_id
        t.only_interrupt_updates
        t.event_counter
        raw_events

-- The round that came first.
then_done :
    (r : Round) (next : Server → Task → Round) {srv' : Server} {t' : Task}
    → then_do r next ≡ done srv' t'
    → (srv : Server) × (t : Task) × (r ≡ done srv t) × (next srv t ≡ done srv' t')
unfolding then_do
then_done (done srv t) next h = (srv, t, refl, h)
then_done blocked next h = cc
then_done (cut srv) next h = cc
then_done (raised srv) next h = cc

IsStored-keeps :
    (o : Option SseEvent) (s s' : Service) (run_id : Text)
    → ((event_id : Text) → held s run_id event_id ≡ true → held s' run_id event_id ≡ true)
    → IsStored o s run_id
    → IsStored o s' run_id
IsStored-keeps none s s' run_id f h = tt
IsStored-keeps (some e) s s' run_id f h = f e.id h

or_assoc : (a b c : Bool) → ((a || b) || c) ≡ (a || (b || c))
or_assoc true b c = refl
or_assoc false b c = refl

Looped-cons :
    (run_id : Text) (raw_event : Value) (raw_events : List Value)
    → (srv mid srv' : Server) (t u t' : Task) → Rounded run_id raw_event srv t mid u
    → Looped run_id raw_events mid u srv' t'
    → Looped run_id (raw_event ∷ raw_events) srv t srv' t'
Looped-cons run_id raw_event raw_events srv mid srv' t u t' r l =
    elim (Bool-cases (should_skip_event raw_event)) [
      | inl p ↦
          let e : u ≡ t = rw p at r.task in
          record {
            numbers = rw p (l.numbers ∙ ap (λ (q : Task). q.event_counter + counted raw_events) e);
            noticed =
                rw p (l.noticed ∙ ap (λ (q : Task). q.has_interrupt || interrupts raw_events) e);
            old = λ event_id h. l.old event_id (r.old event_id h);
            new = rw p (
                subst
                  (λ (q : Task).
                    AllNumbered (λ o. IsStored o srv'.service run_id) run_id
                      q.only_interrupt_updates q.event_counter raw_events)
                  e l.new);
          }
      | inr p ↦
          let e : u ≡ noted t raw_event = rw p at r.task in
          record {
            numbers = rw p (
                l.numbers
                ∙ ap (λ (q : Task). q.event_counter + counted raw_events) e
                ∙ omega arith);
            noticed = rw p (
                l.noticed
                ∙ ap (λ (q : Task). q.has_interrupt || interrupts raw_events) e
                ∙ or_assoc t.has_interrupt (shows_interrupt raw_event) (interrupts raw_events));
            old = λ event_id h. l.old event_id (r.old event_id h);
            new = rw p (
              IsStored-keeps _ mid.service srv'.service run_id l.old (r.new p),
              subst
                  (λ (q : Task).
                    AllNumbered (λ o. IsStored o srv'.service run_id) run_id
                      q.only_interrupt_updates q.event_counter raw_events)
                  e l.new,
            );
          }
    ]

-- A loop that passes all events of the graph has numbered those without the tag "langsmith:nostream"
-- consecutively, noticed an interrupt among them if there is one, and each of them that is to be
-- stored is stored or waits in the run's batch, as does all that did before.
pub all_rounds-Looped :
    (raw_events : List Value) (srv : Server) (run_id : Text) (now : ℕ) (t : Task)
    → {srv' : Server} {t' : Task} → all_rounds srv run_id now t raw_events ≡ done srv' t'
    → Looped run_id raw_events srv t srv' t'
unfolding all_rounds
all_rounds-Looped [] srv run_id now t h =
    let e = done_eq h in
    record {
      numbers = ap (λ (q : Task). q.event_counter) (sym e.1) ∙ omega arith;
      noticed = ap (λ (q : Task). q.has_interrupt) (sym e.1) ∙ ground arith;
      old = λ event_id k. subst (λ (q : Server). held q.service run_id event_id ≡ true) e.0 k;
      new = tt;
    }
all_rounds-Looped (raw_event ∷ raw_events) srv run_id now t {srv'} {t'} h =
    let (mid, u, first, rest) = then_done (round srv run_id now t raw_event) _ h in
    Looped-cons run_id raw_event raw_events srv mid srv' t u t'
      (round-Rounded srv run_id now t raw_event first)
      (all_rounds-Looped raw_events mid run_id now u rest)

abbrev pub IsInTable : Table → Option SseEvent → Type 0
IsInTable table none = Unit
IsInTable table (some e) = has_id e.id table ≡ true

IsStored-table :
    (srv : Server) (run_id : Text) (now : ℕ) (t : Task) (next : Bool) (o : Option SseEvent)
    → srv.service.next_write ≡ lands
    → IsStored o srv.service run_id
    → IsInTable (finish srv run_id now t next).service.table o
IsStored-table srv run_id now t next none l h = tt
IsStored-table srv run_id now t next (some e) l h =
    has_id-row_content e.id (finish srv run_id now t next).service.table
    ∙ ap is_some ((finish-Ended srv run_id now t next l).stored e.id)
    ∙ sym (held_seen srv.service run_id e.id)
    ∙ h

-- What the events that are not skipped store under an id, each under its number from `n + 1` on.
abbrev pub loop_content : Text → Bool → ℕ → List Value → Text → Option Content
loop_content run_id only n [] event_id = none
loop_content run_id only n (raw_event ∷ raw_events) event_id =
    if should_skip_event raw_event
    then loop_content run_id only n raw_events event_id
    else first (content_of run_id event_id (numbered run_id n only raw_event))
        (loop_content run_id only (n + 1) raw_events event_id)

all_rounds-seen :
    (raw_events : List Value) (srv : Server) (run_id event_id : Text) (now : ℕ) (t : Task)
    → {srv' : Server} {t' : Task} → all_rounds srv run_id now t raw_events ≡ done srv' t'
    → seen srv'.service run_id event_id
      ≡ first
          (seen srv.service run_id event_id)
          (loop_content run_id t.only_interrupt_updates t.event_counter raw_events event_id)
unfolding all_rounds
all_rounds-seen [] srv run_id event_id now t h =
    ap (λ (q : Server). seen q.service run_id event_id) (sym (done_eq h).0)
    ∙ sym (first_none (seen srv.service run_id event_id))
all_rounds-seen (raw_event ∷ raw_events) srv run_id event_id now t {srv'} {t'} h =
    let (mid, u, begun, rest) = then_done (round srv run_id now t raw_event) _ h in
    let r = round-Rounded srv run_id now t raw_event begun in
    let later = all_rounds-seen raw_events mid run_id event_id now u rest in
    elim (Bool-cases (should_skip_event raw_event)) [
      | inl p ↦
          let e : u ≡ t = rw p at r.task in
          let same = rw p at r.contents event_id in
          rw p (
            later
            ∙ ap
                (λ (q : Task). first (seen mid.service run_id event_id) (
                  loop_content run_id q.only_interrupt_updates q.event_counter raw_events event_id))
                e
            ∙ ap
                (λ c. first c (
                  loop_content run_id t.only_interrupt_updates t.event_counter raw_events event_id))
                (same ∙ first_none (seen srv.service run_id event_id)))
      | inr p ↦
          let e : u ≡ noted t raw_event = rw p at r.task in
          let one = rw p at r.contents event_id in
          rw p (
            later
            ∙ ap
                (λ (q : Task). first (seen mid.service run_id event_id) (
                  loop_content run_id q.only_interrupt_updates q.event_counter raw_events event_id))
                e
            ∙ ap
                (λ c. first c (
                  loop_content run_id t.only_interrupt_updates (t.event_counter + 1) raw_events
                    event_id))
                one
            ∙ first_assoc (seen srv.service run_id event_id) _ _)
    ]

-- When the graph of a run has yielded its events and the task has ended, with a last store that lands, every
-- event that is to be stored is in the table, under consecutive numbers from the task's on; and under every
-- id the table has, with run, name and payload, what was stored or waited before, and else the first of
-- those events with the id.
pub run_stores :
    (srv srv' : Server) (run_id : Text) (now later : ℕ) (t t' : Task) (raw_events : List Value)
    (next : Bool)
    → all_rounds srv run_id now t raw_events ≡ done srv' t'
    → srv'.service.next_write ≡ lands
    → AllNumbered
        (IsInTable (finish srv' run_id later t' next).service.table)
        run_id
        t.only_interrupt_updates
        t.event_counter
        raw_events
      × ((event_id : Text)
          → row_content event_id (finish srv' run_id later t' next).service.table
            ≡ first
                (seen srv.service run_id event_id)
                (loop_content run_id t.only_interrupt_updates t.event_counter raw_events event_id))
run_stores srv srv' run_id now later t t' raw_events next h l = (
  AllNumbered-map run_id t.only_interrupt_updates t.event_counter raw_events
      (λ o. IsStored-table srv' run_id later t' next o l)
      (all_rounds-Looped raw_events srv run_id now t h).new,
  λ event_id.
      (finish-Ended srv' run_id later t' next l).stored event_id
      ∙ all_rounds-seen raw_events srv run_id event_id now t h,
)
