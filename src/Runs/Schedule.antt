-- ===== src/Runs/Schedule.antt =====
-- One run under a schedule: the steps of its task (`execute_run_async`) and the endpoints of api/runs.py
-- that stop it, in any order. A store that a step awaits may raise or be cancelled while it is awaited.
-- `error_text` is the text of the error that a round may raise.
pub mod Lossless
use open_langgraph_platform.Prelude.{ℕ, Bool, true, false, Option, none, some, List, [], ◌∷◌, Text}
use open_langgraph_platform.Value.{Value}
use open_langgraph_platform.Dict.{lookup}
use open_langgraph_platform.Streaming.{Write}
use open_langgraph_platform.Runs.{Task, Server, live_task}
use open_langgraph_platform.Runs.Execute.{
  Round, done, blocked, raised, cut, begin, round, finish, cancelled, fail,
}
use open_langgraph_platform.Runs.Endpoints.{
  Reply, replied, awaiting, not_found, bad_request, conflict, CancelAction, cancel_run_endpoint,
}

pub data Action : Type 0 where
  -- the task starts
  started : Action
  -- the graph yields an event
  yielded : Value → Action
  -- the graph has ended; whether the thread has a next node
  ended : Bool → Action
  -- the graph raises an error
  raises : Text → Action
  -- the task is told to cancel
  cancels : Action
  -- a client cancels or interrupts the run, and may wait for the task
  stops : CancelAction → Bool → Action

abbrev pub answering : Write → Server → Server
answering w srv = record srv { service = record srv.service { next_write = w } }

module _ (error_text thread_id run_id user_id : Text) where
  after_round : Round → Server → ℕ → Task → Server
  after_round (done srv' t') srv now t = srv'
  after_round blocked srv now t = srv
  after_round (raised srv') srv now t = fail srv' run_id now t error_text
  after_round (cut srv') srv now t = cancelled srv' run_id now t

  after_reply : Reply → Server → Server
  after_reply (replied srv') srv = srv'
  after_reply (awaiting srv') srv = srv'
  after_reply _ srv = srv

  -- a step of the task, if there is one
  task_step : Option Task → Server → ℕ → Action → Server
  unfolding after_round begin round finish cancelled fail
  task_step none srv now a = srv
  task_step (some t) srv now started = begin srv run_id
  task_step (some t) srv now (yielded raw_event) =
      after_round (round srv run_id now t raw_event) srv now t
  task_step (some t) srv now (ended next) = finish srv run_id now t next
  task_step (some t) srv now (raises error) = fail srv run_id now t error
  task_step (some t) srv now cancels = cancelled srv run_id now t
  task_step (some t) srv now (stops action wait) = srv

  unfoldable pub step : Server → ℕ → Action → Server
  unfolding after_reply task_step
  step srv now (stops action wait) =
      after_reply (cancel_run_endpoint srv thread_id run_id user_id now action wait) srv
  step srv now a = task_step (live_task (lookup run_id srv.active_runs)) srv now a

  -- Each step comes with the answer of the database, should it await a store.
  unfoldable pub run : Server → List (ℕ × Write × Action) → Server
  unfolding step
  run srv [] = srv
  run srv ((now, w, a) ∷ actions) = run (step (answering w srv) now a) actions
