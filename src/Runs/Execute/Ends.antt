-- ===== src/Runs/Execute/Ends.antt =====
-- How a run's task ends, in each of the ways in which it can.
use open_langgraph_platform.Prelude.{
  ℕ, ◌≡◌, ◌≢◌, refl, ◌∙◌, ap, Bool, false, ◌||◌, Option, none, some, List, [], ◌∷◌, arith, Text,
  codes, text_eq_refl, if◌then◌else◌, Bool-cases, inl, inr,
}
use open_langgraph_platform.Value.{Value, dict, end}
use open_langgraph_platform.Dict.{lookup, lookup-remove}
use open_langgraph_platform.Broker.{Put, ignored, accepted, waiting}
use open_langgraph_platform.Streaming.{Write, lands, fails, abandoned, Service, batch_of}
use open_langgraph_platform.Streaming.Storing.Contents.{row_content, seen}
use open_langgraph_platform.Streaming.Producer.{
  signal_run_cancelled, signal_run_error, is_run_streaming, cleanup_run,
}
use open_langgraph_platform.Streaming.Producer.Cleanup.{
  SameStore, signal_end-SameStore, seen_same, Closed, cleanup_run-Closed,
}
use open_langgraph_platform.Runs.{RunRow, Task, Server, written, update_run_status, find_run}
use open_langgraph_platform.Runs.Execute.{
  set_status, after_cleanup, clean, finish, signalled, cancelled, fail, output_of,
}

-- The status of a run in the database.
abbrev pub status_of : Option RunRow → Option Text
status_of none = none
status_of (some r) = some r.status

-- The status of a row that is there is set.
abbrev pub set_to : Text → Option Text → Option Text
set_to status none = none
set_to status (some _) = some status

pub status-update_run_status :
    (runs : List RunRow) (run_id status : Text) (output : Option Value) (error : Option Text)
    → status_of (find_run run_id (update_run_status runs run_id status output error))
      ≡ set_to status (status_of (find_run run_id runs))
unfolding update_run_status find_run written
status-update_run_status [] run_id status output error = refl
status-update_run_status (r ∷ runs) run_id status output error =
    ground (arith, status-update_run_status runs run_id status output error)

-- What is left when the task of a run has ended.
pub record Ended (before after : Server) (run_id status : Text) : Type 0 where
  -- the run's row has the final status
  pub final :
      status_of (find_run run_id after.runs)
      ≡ set_to status (status_of (find_run run_id before.runs))
  -- no event of the run waits to be stored
  pub batch_empty : batch_of after.service run_id ≡ []
  -- its stream is closed
  pub closed : is_run_streaming after.service run_id ≡ false
  -- its task is gone
  pub gone : lookup run_id after.active_runs ≡ none
  -- every event that was stored or waited is stored, unchanged
  pub stored :
      (event_id : Text)
      → row_content event_id after.service.table ≡ seen before.service run_id event_id

after_cleanup-runs :
    (w : Write) (s : Service) (srv : Server) (run_id : Text)
    → (after_cleanup (s, w) srv run_id).runs ≡ srv.runs
unfolding after_cleanup
after_cleanup-runs lands s srv run_id = refl
after_cleanup-runs fails s srv run_id = refl
after_cleanup-runs abandoned s srv run_id = refl

clean-runs : (srv : Server) (run_id : Text) (now : ℕ) → (clean srv run_id now).runs ≡ srv.runs
unfolding clean
clean-runs srv run_id now =
    after_cleanup-runs (cleanup_run srv.service run_id now).1 (cleanup_run srv.service run_id now).0
      srv run_id

after_cleanup-Ended :
    (w : Write) (s : Service) (before srv : Server) (run_id status : Text)
    → w ≡ lands
    → SameStore before.service srv.service
    → status_of (find_run run_id srv.runs) ≡ set_to status (status_of (find_run run_id before.runs))
    → Closed srv.service s run_id
    → Ended before (after_cleanup (s, w) srv run_id) run_id status
unfolding after_cleanup
after_cleanup-Ended fails s before srv run_id status l same f c = cc
after_cleanup-Ended abandoned s before srv run_id status l same f c = cc
after_cleanup-Ended lands s before srv run_id status l same f c = record {
  final = f;
  batch_empty = c.empty;
  closed = c.closed;
  gone = ground (arith, lookup-remove run_id run_id srv.active_runs, text_eq_refl run_id);
  stored =
      λ event_id. c.contents event_id ∙ seen_same before.service srv.service run_id event_id same;
}

-- The clean-up after the status was written, by a signal that left the store alone.
clean-Ended :
    (before srv : Server) (run_id status : Text) (now : ℕ)
    → before.service.next_write ≡ lands
    → SameStore before.service srv.service
    → status_of (find_run run_id srv.runs) ≡ set_to status (status_of (find_run run_id before.runs))
    → Ended before (clean srv run_id now) run_id status
unfolding clean
clean-Ended before srv run_id status now l same f =
    let (w, c) = cleanup_run-Closed srv.service run_id now (same.3 ∙ l) in
    after_cleanup-Ended (cleanup_run srv.service run_id now).1
      (cleanup_run srv.service run_id now).0 before srv run_id status w same f c

signalled-Ended :
    (p : Put) (s : Service) (before srv : Server) (run_id status : Text) (now : ℕ)
    → p ≢ waiting
    → before.service.next_write ≡ lands
    → SameStore before.service s
    → status_of (find_run run_id srv.runs) ≡ set_to status (status_of (find_run run_id before.runs))
    → Ended before (signalled (s, p) srv run_id now) run_id status
unfolding signalled
signalled-Ended ignored s before srv run_id status now w l same f =
    clean-Ended before (record srv { service = s }) run_id status now l same f
signalled-Ended (accepted b) s before srv run_id status now w l same f =
    clean-Ended before (record srv { service = s }) run_id status now l same f
signalled-Ended waiting s before srv run_id status now w l same f = absurd (w refl)

-- The status with which a task that runs to its end leaves the run.
abbrev pub final_status : Bool → Text
final_status interrupted = if interrupted then codes "interrupted" else codes "completed"

-- The status is written whatever becomes of the last flush.
pub finish-final :
    (srv : Server) (run_id : Text) (now : ℕ) (t : Task) (next : Bool)
    → status_of (find_run run_id (finish srv run_id now t next).runs)
      ≡ set_to (final_status (t.has_interrupt || next)) (status_of (find_run run_id srv.runs))
unfolding finish set_status clean
finish-final srv run_id now t next = elim (Bool-cases (t.has_interrupt || next)) [
  | inl p ↦ rw p (
      ap (λ runs. status_of (find_run run_id runs))
        (clean-runs
          (set_status srv run_id t.thread_id (codes "interrupted") (codes "interrupted")
            (some (output_of t.final_output)) none)
          run_id now)
      ∙ status-update_run_status srv.runs run_id (codes "interrupted")
          (some (output_of t.final_output)) none)
  | inr p ↦ rw p (
      ap (λ runs. status_of (find_run run_id runs))
        (clean-runs
          (set_status srv run_id t.thread_id (codes "completed") (codes "idle")
            (some (output_of t.final_output)) none)
          run_id now)
      ∙ status-update_run_status srv.runs run_id (codes "completed")
          (some (output_of t.final_output)) none)
]

-- If the store that the clean-up awaits lands, a task whose graph has run to its end leaves the run
-- "interrupted" if an interrupt was seen or the thread's state has a next node, and "completed" otherwise;
-- all events of the run are stored unchanged, its stream is closed and its task is gone.
pub finish-Ended :
    (srv : Server) (run_id : Text) (now : ℕ) (t : Task) (next : Bool)
    → srv.service.next_write ≡ lands
    → Ended srv (finish srv run_id now t next) run_id (final_status (t.has_interrupt || next))
unfolding finish set_status clean
finish-Ended srv run_id now t next l = elim (Bool-cases (t.has_interrupt || next)) [
  | inl p ↦ rw p (
      clean-Ended srv
        (set_status srv run_id t.thread_id (codes "interrupted") (codes "interrupted")
          (some (output_of t.final_output)) none)
        run_id (codes "interrupted") now l (refl, refl, refl, refl)
        (status-update_run_status srv.runs run_id (codes "interrupted")
          (some (output_of t.final_output)) none))
  | inr p ↦ rw p (
      clean-Ended srv
        (set_status srv run_id t.thread_id (codes "completed") (codes "idle")
          (some (output_of t.final_output)) none)
        run_id (codes "completed") now l (refl, refl, refl, refl)
        (status-update_run_status srv.runs run_id (codes "completed")
          (some (output_of t.final_output)) none))
]

-- If neither signal to the stream waits for room in the queue and the store that the clean-up awaits lands,
-- a task that is cancelled leaves the run "cancelled", and one that raises an error leaves it "failed"; all
-- events of the run are stored unchanged, its stream is closed and its task is gone.
pub stopped-Ended :
    (srv : Server) (run_id : Text) (now : ℕ) (t : Task) (error : Text)
    → srv.service.next_write ≡ lands
    → (signal_run_cancelled srv.service run_id now).1 ≢ waiting
    → (signal_run_error srv.service run_id now error).1 ≢ waiting
    → Ended srv (cancelled srv run_id now t) run_id (codes "cancelled")
      × Ended srv (fail srv run_id now t error) run_id (codes "failed")
unfolding cancelled fail set_status signal_run_cancelled signal_run_error
stopped-Ended srv run_id now t error l wc we = (
  signalled-Ended _ _ srv _ run_id (codes "cancelled") now wc l
      (signal_end-SameStore srv.service run_id now _)
      (status-update_run_status srv.runs run_id (codes "cancelled") (some (dict end)) none),
  signalled-Ended _ _ srv _ run_id (codes "failed") now we l
      (signal_end-SameStore srv.service run_id now _)
      (status-update_run_status srv.runs run_id (codes "failed") (some (dict end)) (some error)),
)
