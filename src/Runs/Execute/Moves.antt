-- ===== src/Runs/Execute/Moves.antt =====
-- api/runs.py: what each step of a run's task does to its events.
use mathlib.Core.Path.{subst}
use open_langgraph_platform.Prelude.{
  ℕ, ◌+◌, ◌≡◌, ◌≢◌, refl, ◌∙◌, ap, Bool, Option, none, some, inl, inr, Text, codes, Bool-cases,
}
use open_langgraph_platform.Value.{Value, dict, end}
use open_langgraph_platform.Dict.{has-inserted}
use open_langgraph_platform.EventId.{generate_event_id}
use open_langgraph_platform.Broker.{Put, ignored, accepted, waiting}
use open_langgraph_platform.Streaming.{Write, lands, fails, abandoned, Service, batch_of}
use open_langgraph_platform.Streaming.Storing.{store_event_from_raw}
use open_langgraph_platform.Streaming.Storing.Batches.{store_event_from_raw-Kept}
use open_langgraph_platform.Streaming.Storing.Contents.{row_content}
use open_langgraph_platform.Streaming.Producer.{
  Sent, put_result, skipped, failed, put_to_broker, signal_run_cancelled, signal_run_error,
  cleanup_run,
}
use open_langgraph_platform.Streaming.Producer.Cleanup.{
  SameStore, signal_end-SameStore, put_to_broker-SameStore, cleanup_run-Closed,
}
use open_langgraph_platform.Runs.{Task, Server}
use open_langgraph_platform.Runs.Keeps.{Keeps, Keeps-trans, Keeps-same, Keeps-stored, Quiet}
use open_langgraph_platform.Runs.Execute.{
  Round, done, blocked, raised, cut, after_cleanup, round, stored_round, sent_round,
  should_skip_event, noted, clean, set_status, signalled, finish, cancelled, fail,
}
use open_langgraph_platform.Runs.Execute.Ends.{finish-Ended}
use open_langgraph_platform.Runs.Execute.Rounds.{round-Rounded}

after_cleanup-service :
    (w : Write) (s : Service) (srv : Server) (run_id : Text)
    → (after_cleanup (s, w) srv run_id).service ≡ s
unfolding after_cleanup
after_cleanup-service lands s srv run_id = refl
after_cleanup-service fails s srv run_id = refl
after_cleanup-service abandoned s srv run_id = refl

Keeps-clean :
    (run_id : Text) (srv : Server) (now : ℕ)
    → srv.service.next_write ≡ lands
    → Keeps run_id srv (clean srv run_id now)
unfolding clean
Keeps-clean run_id srv now l =
    let c = (cleanup_run-Closed srv.service run_id now l).1 in
    let e =
      after_cleanup-service (cleanup_run srv.service run_id now).1
        (cleanup_run srv.service run_id now).0 srv run_id in
    Keeps-stored run_id srv _ (ap (λ s. batch_of s run_id) e ∙ c.empty)
      (λ event_id. ap (λ (s : Service). row_content event_id s.table) e ∙ c.contents event_id)

Keeps-signalled :
    (p : Put) (s : Service) (run_id : Text) (srv mid : Server) (now : ℕ)
    → SameStore srv.service s
    → mid.active_runs ≡ srv.active_runs
    → srv.service.next_write ≡ lands
    → Keeps run_id srv (signalled (s, p) mid run_id now)
unfolding signalled
Keeps-signalled waiting s run_id srv mid now same t l =
    Keeps-same run_id srv (record mid { service = s }) same t
Keeps-signalled ignored s run_id srv mid now same t l =
    Keeps-trans run_id srv (record mid { service = s }) _
      (Keeps-same run_id srv (record mid { service = s }) same t)
      (Keeps-clean run_id (record mid { service = s }) now (same.3 ∙ l))
Keeps-signalled (accepted b) s run_id srv mid now same t l =
    Keeps-trans run_id srv (record mid { service = s }) _
      (Keeps-same run_id srv (record mid { service = s }) same t)
      (Keeps-clean run_id (record mid { service = s }) now (same.3 ∙ l))

pub error-SameStore :
    (s : Service) (run_id : Text) (now : ℕ) (error : Text)
    → SameStore s (signal_run_error s run_id now error).0
unfolding signal_run_error
error-SameStore s run_id now error = signal_end-SameStore s run_id now _

pub cancelled-SameStore :
    (s : Service) (run_id : Text) (now : ℕ) → SameStore s (signal_run_cancelled s run_id now).0
unfolding signal_run_cancelled
cancelled-SameStore s run_id now = signal_end-SameStore s run_id now _

pub Keeps-fail :
    (run_id : Text) (srv : Server) (now : ℕ) (t : Task) (error : Text)
    → srv.service.next_write ≡ lands
    → Keeps run_id srv (fail srv run_id now t error)
unfolding fail set_status
Keeps-fail run_id srv now t error l =
    let (s, p) = signal_run_error srv.service run_id now error in
    Keeps-signalled p s run_id srv
      (set_status srv run_id t.thread_id (codes "failed") (codes "idle") (some (dict end))
        (some error))
      now (error-SameStore srv.service run_id now error) refl l

pub Keeps-cancelled :
    (run_id : Text) (srv : Server) (now : ℕ) (t : Task)
    → srv.service.next_write ≡ lands
    → Keeps run_id srv (cancelled srv run_id now t)
unfolding cancelled set_status
Keeps-cancelled run_id srv now t l =
    let (s, p) = signal_run_cancelled srv.service run_id now in
    Keeps-signalled p s run_id srv
      (set_status srv run_id t.thread_id (codes "cancelled") (codes "idle") (some (dict end)) none)
      now (cancelled-SameStore srv.service run_id now) refl l

pub Keeps-finish :
    (run_id : Text) (srv : Server) (now : ℕ) (t : Task) (next : Bool)
    → srv.service.next_write ≡ lands
    → Keeps run_id srv (finish srv run_id now t next)
Keeps-finish run_id srv now t next l =
    let e = finish-Ended srv run_id now t next l in
    Keeps-stored run_id srv (finish srv run_id now t next) e.batch_empty e.stored

-- The server behind a round, if the round ended.
abbrev pub RoundKeeps : Text → Server → Round → Type 0
RoundKeeps run_id srv (done srv' t) = Quiet run_id srv → Quiet run_id srv'
RoundKeeps run_id srv blocked = Unit
RoundKeeps run_id srv (raised srv') =
    srv.service.next_write ≡ lands → Keeps run_id srv srv' × (srv'.service.next_write ≡ lands)
RoundKeeps run_id srv (cut srv') = srv.service.next_write ≢ lands

-- A write that does not land was not to land.
abbrev IsUnlucky : Service → Option (Service × Write) → Type 0
IsUnlucky s (some (s', fails)) = s.next_write ≢ lands
IsUnlucky s (some (s', abandoned)) = s.next_write ≢ lands
IsUnlucky s o = Unit

stored-IsUnlucky :
    (s : Service) (run_id event_id : Text) (now : ℕ) (raw_event : Value) (only : Bool)
    (o : Option (Service × Write))
    → store_event_from_raw s run_id now event_id raw_event only ≡ o
    → IsUnlucky s o
stored-IsUnlucky s run_id event_id now raw_event only none e = tt
stored-IsUnlucky s run_id event_id now raw_event only (some (s', lands)) e = tt
stored-IsUnlucky s run_id event_id now raw_event only (some (s', fails)) e =
    (store_event_from_raw-Kept s s' run_id event_id now raw_event only fails e).unlucky
stored-IsUnlucky s run_id event_id now raw_event only (some (s', abandoned)) e =
    (store_event_from_raw-Kept s s' run_id event_id now raw_event only abandoned e).unlucky

stored_round-RoundKeeps :
    (o : Option (Service × Write)) (run_id : Text) (srv : Server) (s : Service) (t : Task)
    → SameStore srv.service s
    → IsUnlucky s o
    → RoundKeeps run_id srv (stored_round o s srv run_id t)
unfolding stored_round
stored_round-RoundKeeps none run_id srv s t same u =
    λ l. (Keeps-same run_id srv (record srv { service = s }) same refl, same.3 ∙ l)
stored_round-RoundKeeps (some (s', lands)) run_id srv s t same u =
    λ q. inl (has-inserted run_id t srv.active_runs)
stored_round-RoundKeeps (some (s', fails)) run_id srv s t same u = λ l. absurd (u (same.3 ∙ l))
stored_round-RoundKeeps (some (s', abandoned)) run_id srv s t same u = λ l. u (same.3 ∙ l)

sent_round-RoundKeeps :
    (sent : Sent) (run_id : Text) (srv : Server) (s : Service) (now : ℕ) (t : Task)
    (raw_event : Value)
    → SameStore srv.service s
    → RoundKeeps run_id srv (sent_round sent s srv run_id now t raw_event)
unfolding sent_round
sent_round-RoundKeeps (put_result waiting) run_id srv s now t raw_event same = tt
sent_round-RoundKeeps (put_result ignored) run_id srv s now t raw_event same =
    stored_round-RoundKeeps _ run_id srv s (noted t raw_event) same (
      stored-IsUnlucky s run_id (generate_event_id run_id (t.event_counter + 1)) now raw_event
        t.only_interrupt_updates _ refl)
sent_round-RoundKeeps (put_result (accepted b)) run_id srv s now t raw_event same =
    stored_round-RoundKeeps _ run_id srv s (noted t raw_event) same (
      stored-IsUnlucky s run_id (generate_event_id run_id (t.event_counter + 1)) now raw_event
        t.only_interrupt_updates _ refl)
sent_round-RoundKeeps skipped run_id srv s now t raw_event same =
    stored_round-RoundKeeps _ run_id srv s (noted t raw_event) same (
      stored-IsUnlucky s run_id (generate_event_id run_id (t.event_counter + 1)) now raw_event
        t.only_interrupt_updates _ refl)
sent_round-RoundKeeps failed run_id srv s now t raw_event same =
    λ l. (Keeps-same run_id srv (record srv { service = s }) same refl, same.3 ∙ l)

pub round-RoundKeeps :
    (run_id : Text) (srv : Server) (now : ℕ) (t : Task) (raw_event : Value)
    → RoundKeeps run_id srv (round srv run_id now t raw_event)
unfolding round
round-RoundKeeps run_id srv now t raw_event = elim (Bool-cases (should_skip_event raw_event)) [
  | inl p ↦ rw p (λ q. q)
  | inr p ↦
      let event_id = generate_event_id run_id (t.event_counter + 1) in
      let sent = put_to_broker srv.service run_id now event_id raw_event t.only_interrupt_updates in
      rw p (
        sent_round-RoundKeeps sent.1 run_id srv sent.0 now t raw_event (
          put_to_broker-SameStore srv.service run_id now event_id raw_event
            t.only_interrupt_updates))
]

-- A round that ends keeps the run's events.
pub Keeps-round :
    (run_id : Text) (srv : Server) (now : ℕ) (t : Task) (raw_event : Value) {srv' : Server}
    {t' : Task}
    → round srv run_id now t raw_event ≡ done srv' t'
    → Keeps run_id srv srv'
Keeps-round run_id srv now t raw_event {srv'} {t'} h = record {
  old = (round-Rounded srv run_id now t raw_event h).old;
  quiet = subst (RoundKeeps run_id srv) h (round-RoundKeeps run_id srv now t raw_event);
}
