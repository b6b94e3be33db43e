-- ===== src/Runs/Endpoints/Moves.antt =====
-- api/runs.py: what an endpoint that stops a run does to the run's events.
use open_langgraph_platform.Prelude.{
  ℕ, refl, Bool, ◌&&◌, Option, none, some, Text, codes, is_some, Bool-cases, inl, inr,
}
use open_langgraph_platform.Dict.{lookup}
use open_langgraph_platform.Broker.{Put, ignored, accepted, waiting}
use open_langgraph_platform.Streaming.{Service}
use open_langgraph_platform.Streaming.Producer.{signal_run_cancelled, signal_run_error}
use open_langgraph_platform.Streaming.Producer.Cleanup.{SameStore}
use open_langgraph_platform.Runs.{RunRow, Server, live_task}
use open_langgraph_platform.Runs.Keeps.{Keeps, Keeps-same}
use open_langgraph_platform.Runs.Execute.Moves.{error-SameStore, cancelled-SameStore}
use open_langgraph_platform.Runs.Endpoints.{
  Reply, replied, awaiting, not_found, CancelAction, cancel, interrupt, after_signal, settled,
  stop_run, cancel_run, interrupt_run, cancel_run_endpoint, select_run,
}

-- The server behind a reply, where there is one.
abbrev pub ReplyKeeps : Text → Server → Reply → Type 0
ReplyKeeps run_id srv (replied srv') = Keeps run_id srv srv'
ReplyKeeps run_id srv (awaiting srv') = Keeps run_id srv srv'
ReplyKeeps run_id srv _ = Unit

settled-ReplyKeeps :
    (p : Put) (s : Service) (run_id : Text) (srv : Server) (status : Text) (wait : Bool)
    → SameStore srv.service s
    → ReplyKeeps run_id srv (settled (after_signal (s, p) srv run_id status) run_id status wait)
unfolding settled after_signal
settled-ReplyKeeps waiting s run_id srv status wait same = Keeps-same run_id srv _ same refl
settled-ReplyKeeps ignored s run_id srv status wait same =
    elim (Bool-cases (wait && is_some (live_task (lookup run_id srv.active_runs)))) [
      | inl w ↦ rw w (Keeps-same run_id srv _ same refl)
      | inr w ↦ rw w (Keeps-same run_id srv _ same refl)
    ]
settled-ReplyKeeps (accepted b) s run_id srv status wait same =
    elim (Bool-cases (wait && is_some (live_task (lookup run_id srv.active_runs)))) [
      | inl w ↦ rw w (Keeps-same run_id srv _ same refl)
      | inr w ↦ rw w (Keeps-same run_id srv _ same refl)
    ]

stop_run-ReplyKeeps :
    (action : CancelAction) (run_id : Text) (srv : Server) (now : ℕ) (wait : Bool)
    → ReplyKeeps run_id srv (stop_run action srv run_id now wait)
unfolding stop_run cancel_run interrupt_run
stop_run-ReplyKeeps cancel run_id srv now wait =
    let (s, p) = signal_run_cancelled srv.service run_id now in
    settled-ReplyKeeps p s run_id srv (codes "cancelled") wait
      (cancelled-SameStore srv.service run_id now)
stop_run-ReplyKeeps interrupt run_id srv now wait =
    let (s, p) = signal_run_error srv.service run_id now (codes "Run was interrupted") in
    settled-ReplyKeeps p s run_id srv (codes "interrupted") wait
      (error-SameStore srv.service run_id now (codes "Run was interrupted"))

pub cancel_run_endpoint-ReplyKeeps :
    (srv : Server) (thread_id run_id user_id : Text) (now : ℕ) (action : CancelAction) (wait : Bool)
    → ReplyKeeps run_id srv (cancel_run_endpoint srv thread_id run_id user_id now action wait)
unfolding cancel_run_endpoint
cancel_run_endpoint-ReplyKeeps srv thread_id run_id user_id now action wait =
    elim (select_run run_id thread_id user_id srv.runs)
      as (λ (o : Option RunRow).
        ReplyKeeps run_id srv
          (elim o [ none ↦ not_found | some r ↦ stop_run action srv run_id now wait ])) [
            | none ↦ tt
            | some r ↦ stop_run-ReplyKeeps action run_id srv now wait
          ]
