-- ===== src/Runs/Execute/Rounds.antt =====
-- What the loop of a run's task does with the events of the graph.
use mathlib.Core.Path.{subst}
use open_langgraph_platform.Prelude.{
  ℕ, ◌+◌, ◌≡◌, refl, ap, ◌∙◌, sym, Bool, true, false, Option, none, some, arith, Text,
  if◌then◌else◌, Bool-cases, inl, inr,
}
use open_langgraph_platform.Value.{Value}
use open_langgraph_platform.EventId.{generate_event_id}
use open_langgraph_platform.Broker.{ignored, accepted, waiting}
use open_langgraph_platform.EventStore.{SseEvent}
use open_langgraph_platform.Streaming.{
  Write, lands, fails, abandoned, Service, process_interrupt_updates,
}
use open_langgraph_platform.Streaming.Storing.{store_event_from_raw}
use open_langgraph_platform.Streaming.Storing.Batches.{
  held, event_of, content_of, IsStored, Kept-old, Kept-new, store_event_from_raw-Kept,
}
use open_langgraph_platform.Streaming.Storing.Contents.{first, first_none, seen}
use open_langgraph_platform.Streaming.Producer.{Sent, put_result, skipped, failed, put_to_broker}
use open_langgraph_platform.Streaming.Producer.Cleanup.{
  SameStore, seen_same, put_to_broker-SameStore,
}
use open_langgraph_platform.Runs.{Task, Server}
use open_langgraph_platform.Runs.Execute.{
  should_skip_event, noted, done, stored_round, sent_round, round,
}

-- The event that is to be stored for a raw event, under the number that follows the task's.
abbrev pub numbered : Text → ℕ → Bool → Value → Option SseEvent
numbered run_id n only raw_event =
    event_of (generate_event_id run_id (n + 1)) (process_interrupt_updates raw_event only)

-- What a round has done that ended.
pub record Rounded (run_id : Text) (raw_event : Value) (srv : Server) (t : Task) (srv' : Server)
    (t' : Task) : Type 0 where
  pub task : t' ≡ (if should_skip_event raw_event then t else noted t raw_event)
  pub old :
      (event_id : Text)
      → held srv.service run_id event_id ≡ true
      → held srv'.service run_id event_id ≡ true
  pub new :
      should_skip_event raw_event ≡ false
      → IsStored
          (numbered run_id t.event_counter t.only_interrupt_updates raw_event)
          srv'.service
          run_id
  -- under every id what was there before, and else the event of the round
  pub contents :
      (event_id : Text)
      → seen srv'.service run_id event_id
        ≡ first (seen srv.service run_id event_id) (
            if should_skip_event raw_event
            then none
            else content_of run_id event_id
                (numbered run_id t.event_counter t.only_interrupt_updates raw_event))

pub done_eq : {a b : Server} {t u : Task} → done a t ≡ done b u → (a ≡ b) × (t ≡ u)
done_eq e = (cc, cc)

held_same :
    (s s' : Service) (run_id event_id : Text)
    → SameStore s s'
    → held s run_id event_id ≡ true
    → held s' run_id event_id ≡ true
held_same s s' run_id event_id same h = ground (arith, same, h)

-- The part of `Rounded` behind the test for the tag.
abbrev Stored : Text → Value → Server → Task → Server → Task → Type 0
Stored run_id raw_event srv t srv' t' =
    (t' ≡ noted t raw_event)
    × ((event_id : Text)
        → held srv.service run_id event_id ≡ true
        → held srv'.service run_id event_id ≡ true)
    × IsStored (numbered run_id t.event_counter t.only_interrupt_updates raw_event) srv'.service
        run_id
    × ((event_id : Text)
        → seen srv'.service run_id event_id
          ≡ first (seen srv.service run_id event_id) (
              content_of run_id event_id
                (numbered run_id t.event_counter t.only_interrupt_updates raw_event)))

module _ (run_id : Text) (now : ℕ) (t : Task) (raw_event : Value) (srv : Server) (s : Service) where
  stored_round-Stored :
      (o : Option (Service × Write)) {srv' : Server} {t' : Task}
      → SameStore srv.service s
      → store_event_from_raw s run_id now
          (generate_event_id run_id (t.event_counter + 1))
          raw_event
          t.only_interrupt_updates
        ≡ o
      → stored_round o s srv run_id (noted t raw_event) ≡ done srv' t'
      → Stored run_id raw_event srv t srv' t'
  unfolding stored_round
  stored_round-Stored none same e h = cc
  stored_round-Stored (some (s', fails)) same e h = cc
  stored_round-Stored (some (s', abandoned)) same e h = cc
  stored_round-Stored (some (s', lands)) {srv'} {t'} same e h =
      let kept =
        store_event_from_raw-Kept s s' run_id (generate_event_id run_id (t.event_counter + 1)) now
          raw_event t.only_interrupt_updates lands e in
      let moved = ap (λ (q : Server). q.service) (done_eq h).0 in
      (
        sym (done_eq h).1,
        λ event_id k.
            subst (λ q. held q run_id event_id ≡ true) moved
              (Kept-old s s' run_id event_id _ kept
                (held_same srv.service s run_id event_id same k)),
        subst
            (λ q.
              IsStored (numbered run_id t.event_counter t.only_interrupt_updates raw_event) q
                run_id)
            moved (Kept-new _ s s' run_id kept),
        λ event_id.
            ap (λ q. seen q run_id event_id) (sym moved)
            ∙ kept.contents event_id
            ∙ ap
                (λ c. first c (
                  content_of run_id event_id
                    (numbered run_id t.event_counter t.only_interrupt_updates raw_event)))
                (seen_same srv.service s run_id event_id same),
      )

  sent_round-Stored :
      (sent : Sent) {srv' : Server} {t' : Task}
      → SameStore srv.service s
      → sent_round sent s srv run_id now t raw_event ≡ done srv' t'
      → Stored run_id raw_event srv t srv' t'
  unfolding sent_round
  sent_round-Stored (put_result waiting) same h = cc
  sent_round-Stored (put_result ignored) same h = stored_round-Stored _ same refl h
  sent_round-Stored (put_result (accepted b)) same h = stored_round-Stored _ same refl h
  sent_round-Stored skipped same h = stored_round-Stored _ same refl h
  sent_round-Stored failed same h = cc

pub round-Rounded :
    (srv : Server) (run_id : Text) (now : ℕ) (t : Task) (raw_event : Value) {srv' : Server}
    {t' : Task}
    → round srv run_id now t raw_event ≡ done srv' t'
    → Rounded run_id raw_event srv t srv' t'
unfolding round
round-Rounded srv run_id now t raw_event {srv'} {t'} h =
    elim (Bool-cases (should_skip_event raw_event)) [
      | inl p ↦
          let e = done_eq (rw p at h) in
          record {
            task = rw p (sym e.1);
            old = λ event_id k.
                subst (λ q. held q run_id event_id ≡ true) (ap (λ (q : Server). q.service) e.0) k;
            new = λ n. cc;
            contents = λ event_id. rw p (
                ap (λ (q : Server). seen q.service run_id event_id) (sym e.0)
                ∙ sym (first_none (seen srv.service run_id event_id)));
          }
      | inr p ↦
          let event_id = generate_event_id run_id (t.event_counter + 1) in
          let sent =
            put_to_broker srv.service run_id now event_id raw_event t.only_interrupt_updates in
          let stored =
            sent_round-Stored run_id now t raw_event srv sent.0 sent.1
              (put_to_broker-SameStore srv.service run_id now event_id raw_event
                t.only_interrupt_updates)
              (rw p at h) in
          record {
            task = rw p stored.0;
            old = stored.1;
            new = λ _. stored.2;
            contents = λ event_id. rw p (stored.3 event_id);
          }
    ]
