-- ===== src/Runs/Schedule/Lossless.antt =====
-- What a run's events come to, however its task and the endpoints interleave.
use open_langgraph_platform.Prelude.{ℕ, ◌≡◌, refl, All, Option, none, some, List, [], ◌∷◌, Text}
use open_langgraph_platform.Value.{Value}
use open_langgraph_platform.Dict.{lookup}
use open_langgraph_platform.Streaming.{Write, lands}
use open_langgraph_platform.Runs.{Task, Server, live_task}
use open_langgraph_platform.Runs.Keeps.{Keeps, Keeps-refl, Keeps-trans, Keeps-same}
use open_langgraph_platform.Runs.Execute.{Round, done, blocked, raised, cut, begin, round}
use open_langgraph_platform.Runs.Execute.Moves.{
  RoundKeeps, round-RoundKeeps, Keeps-round, Keeps-fail, Keeps-cancelled, Keeps-finish,
}
use open_langgraph_platform.Runs.Endpoints.{
  Reply, replied, awaiting, not_found, bad_request, conflict, cancel_run_endpoint,
}
use open_langgraph_platform.Runs.Endpoints.Moves.{ReplyKeeps, cancel_run_endpoint-ReplyKeeps}
use open_langgraph_platform.Runs.Schedule.{
  Action, started, yielded, ended, raises, cancels, stops, after_round, after_reply, task_step,
  step, answering, run,
}

module _ (error_text thread_id run_id user_id : Text) where
  after_round-Keeps :
      (r : Round) (srv : Server) (now : ℕ) (t : Task) (raw_event : Value)
      → round srv run_id now t raw_event ≡ r
      → RoundKeeps run_id srv r
      → srv.service.next_write ≡ lands
      → Keeps run_id srv (after_round error_text thread_id run_id user_id r srv now t)
  unfolding after_round
  after_round-Keeps (done srv' t') srv now t raw_event e k l =
      Keeps-round run_id srv now t raw_event e
  after_round-Keeps blocked srv now t raw_event e k l = Keeps-refl run_id srv
  after_round-Keeps (raised srv') srv now t raw_event e k l =
      Keeps-trans run_id srv srv' _ (k l).0 (Keeps-fail run_id srv' now t error_text (k l).1)
  after_round-Keeps (cut srv') srv now t raw_event e k l = absurd (k l)

  after_reply-Keeps :
      (r : Reply) (srv : Server)
      → ReplyKeeps run_id srv r
      → Keeps run_id srv (after_reply error_text thread_id run_id user_id r srv)
  unfolding after_reply
  after_reply-Keeps (replied srv') srv k = k
  after_reply-Keeps (awaiting srv') srv k = k
  after_reply-Keeps not_found srv k = Keeps-refl run_id srv
  after_reply-Keeps bad_request srv k = Keeps-refl run_id srv
  after_reply-Keeps conflict srv k = Keeps-refl run_id srv

  task_step-Keeps :
      (o : Option Task) (srv : Server) (now : ℕ) (a : Action)
      → srv.service.next_write ≡ lands
      → Keeps run_id srv (task_step error_text thread_id run_id user_id o srv now a)
  unfolding task_step begin
  task_step-Keeps none srv now a l = Keeps-refl run_id srv
  task_step-Keeps (some t) srv now started l = Keeps-same run_id srv _ (refl, refl, refl, refl) refl
  task_step-Keeps (some t) srv now (yielded raw_event) l =
      after_round-Keeps (round srv run_id now t raw_event) srv now t raw_event refl
        (round-RoundKeeps run_id srv now t raw_event) l
  task_step-Keeps (some t) srv now (ended next) l = Keeps-finish run_id srv now t next l
  task_step-Keeps (some t) srv now (raises error) l = Keeps-fail run_id srv now t error l
  task_step-Keeps (some t) srv now cancels l = Keeps-cancelled run_id srv now t l
  task_step-Keeps (some t) srv now (stops action wait) l = Keeps-refl run_id srv

  step-Keeps :
      (srv : Server) (now : ℕ) (a : Action)
      → srv.service.next_write ≡ lands
      → Keeps run_id srv (step error_text thread_id run_id user_id srv now a)
  unfolding step
  step-Keeps srv now (stops action wait) l =
      after_reply-Keeps (cancel_run_endpoint srv thread_id run_id user_id now action wait) srv
        (cancel_run_endpoint-ReplyKeeps srv thread_id run_id user_id now action wait)
  step-Keeps srv now started l =
      task_step-Keeps (live_task (lookup run_id srv.active_runs)) srv now started l
  step-Keeps srv now (yielded raw_event) l =
      task_step-Keeps (live_task (lookup run_id srv.active_runs)) srv now (yielded raw_event) l
  step-Keeps srv now (ended next) l =
      task_step-Keeps (live_task (lookup run_id srv.active_runs)) srv now (ended next) l
  step-Keeps srv now (raises error) l =
      task_step-Keeps (live_task (lookup run_id srv.active_runs)) srv now (raises error) l
  step-Keeps srv now cancels l =
      task_step-Keeps (live_task (lookup run_id srv.active_runs)) srv now cancels l

  -- Under every schedule of the steps of a run's task and of clients that cancel or interrupt the run, in which
  -- every store that is awaited lands, an event of the run that was stored or waited to be stored still is or
  -- does; and if nothing waited without a task at the start, nothing does at the end: when the task is gone,
  -- all events are stored.
  pub run-Keeps :
      (srv : Server) (actions : List (ℕ × Write × Action))
      → All {A = ℕ × Write × Action} (λ a. a.1 ≡ lands) actions
      → Keeps run_id srv (run error_text thread_id run_id user_id srv actions)
  unfolding run
  run-Keeps srv [] landed = Keeps-refl run_id srv
  run-Keeps srv ((now, w, a) ∷ actions) (l, landed) =
      Keeps-trans run_id srv (step error_text thread_id run_id user_id (answering w srv) now a) _
        (Keeps-trans run_id srv (answering w srv) _
          (record { old = λ event_id h. h; quiet = λ q. q }) (step-Keeps (answering w srv) now a l))
        (run-Keeps (step error_text thread_id run_id user_id (answering w srv) now a) actions
          landed)
