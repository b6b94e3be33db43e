-- ===== src/Runs/Endpoints/Control.antt =====
-- What the endpoints do to the rows of the runs, and what a task makes of that.
use open_langgraph_platform.Prelude.{
  ℕ, ◌≡◌, refl, ap, ◌∙◌, sym, false, Option, none, some, List, [], ◌∷◌, Text, codes, text_eq,
  Bool-cases, inl, inr,
}
use open_langgraph_platform.Broker.{Put, ignored, accepted, waiting}
use open_langgraph_platform.Streaming.{Service}
use open_langgraph_platform.Streaming.Producer.{signal_run_cancelled, signal_run_error}
use open_langgraph_platform.Runs.{RunRow, Task, Server, update_run_status, find_run}
use open_langgraph_platform.Runs.Execute.{finish}
use open_langgraph_platform.Runs.Execute.Ends.{
  status_of, set_to, status-update_run_status, finish-final,
}
use open_langgraph_platform.Runs.Endpoints.{
  replied, after_signal, cancel_run, interrupt_run, owned, select_run, settled, CancelAction,
  cancel, interrupt, stop_run, cancel_run_endpoint,
}

abbrev pub stopped_status : CancelAction → Text
stopped_status cancel = codes "cancelled"
stopped_status interrupt = codes "interrupted"

-- What an endpoint that stops a run has done when it replies.
record Stopped (srv srv' : Server) (run_id status : Text) : Type 0 where
  pub rows :
      srv'.runs
      ≡ update_run_status
          (update_run_status srv.runs run_id status none none)
          run_id
          status
          none
          none
  pub tasks : srv'.active_runs ≡ srv.active_runs

pub replied_eq : {a b : Server} → replied a ≡ replied b → a ≡ b
replied_eq e = cc

settled-Stopped :
    (p : Put) (s : Service) (srv : Server) (run_id status : Text) {srv' : Server}
    → settled (after_signal (s, p) srv run_id status) run_id status false ≡ replied srv'
    → Stopped srv srv' run_id status
unfolding settled after_signal
settled-Stopped ignored s srv run_id status h =
    let e = replied_eq h in
    record {
      rows = ap (λ (q : Server). q.runs) (sym e);
      tasks = ap (λ (q : Server). q.active_runs) (sym e);
    }
settled-Stopped (accepted b) s srv run_id status h =
    let e = replied_eq h in
    record {
      rows = ap (λ (q : Server). q.runs) (sym e);
      tasks = ap (λ (q : Server). q.active_runs) (sym e);
    }
settled-Stopped waiting s srv run_id status h = cc

stop_run-Stopped :
    (action : CancelAction) (srv : Server) (run_id : Text) (now : ℕ) {srv' : Server}
    → stop_run action srv run_id now false ≡ replied srv'
    → Stopped srv srv' run_id (stopped_status action)
unfolding stop_run cancel_run interrupt_run
stop_run-Stopped cancel srv run_id now h =
    settled-Stopped (signal_run_cancelled srv.service run_id now).1 _ srv run_id _ h
stop_run-Stopped interrupt srv run_id now h =
    settled-Stopped (signal_run_error srv.service run_id now (codes "Run was interrupted")).1 _ srv
      run_id _ h

find_selected :
    (run_id thread_id user_id status : Text) (runs : List RunRow) {r : RunRow}
    → select_run run_id thread_id user_id runs ≡ some r
    → set_to status (status_of (find_run run_id runs)) ≡ some status
unfolding select_run find_run owned
find_selected run_id thread_id user_id status [] h = cc
find_selected run_id thread_id user_id status (q ∷ runs) h =
    elim (Bool-cases (text_eq q.run_id run_id)) [
      | inl p ↦ rw p
      | inr p ↦ rw p (find_selected run_id thread_id user_id status runs (rw p at h))
    ]

set_to_twice :
    (status status' : Text) (o : Option Text)
    → set_to status o ≡ some status
    → set_to status' (set_to status (set_to status o)) ≡ some status'
set_to_twice status status' none h = cc
set_to_twice status status' (some x) h = refl

status-Stopped :
    (srv srv' : Server) (run_id status : Text)
    → Stopped srv srv' run_id status
    → status_of (find_run run_id srv'.runs)
      ≡ set_to status (set_to status (status_of (find_run run_id srv.runs)))
status-Stopped srv srv' run_id status d =
    ap (λ runs. status_of (find_run run_id runs)) d.rows
    ∙ status-update_run_status (update_run_status srv.runs run_id status none none) run_id status
        none none
    ∙ ap (set_to status) (status-update_run_status srv.runs run_id status none none)

-- The endpoint that cancels or interrupts a run does not stop the run's task: it sets the status and
-- leaves the task among the active ones; when the task's graph then runs to its end without an
-- interrupt, the run is "completed" after all.
pub cancelled_run_completes :
    (srv srv' : Server) (thread_id run_id user_id : Text) (now later : ℕ) (action : CancelAction)
    (t : Task)
    → {r : RunRow} → select_run run_id thread_id user_id srv.runs ≡ some r
    → cancel_run_endpoint srv thread_id run_id user_id now action false ≡ replied srv'
    → t.has_interrupt ≡ false
    → (status_of (find_run run_id srv'.runs) ≡ some (stopped_status action))
      × (srv'.active_runs ≡ srv.active_runs)
      × (status_of (find_run run_id (finish srv' run_id later t false).runs)
          ≡ some (codes "completed"))
unfolding cancel_run_endpoint
cancelled_run_completes srv srv' thread_id run_id user_id now later action t e h i =
    let stopped = stop_run-Stopped action srv run_id now (rw (cancel_run_endpoint, e) at h) in
    let found = find_selected run_id thread_id user_id (stopped_status action) srv.runs e in
    let status = status-Stopped srv srv' run_id (stopped_status action) stopped in
    (
      status ∙ ap (set_to (stopped_status action)) found,
      stopped.tasks,
      finish-final srv' run_id later t false
          ∙ rw i (
              ap (set_to (codes "completed")) status
              ∙ set_to_twice (stopped_status action) (codes "completed")
                  (status_of (find_run run_id srv.runs)) found),
    )
