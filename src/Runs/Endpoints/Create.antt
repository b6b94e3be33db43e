-- ===== src/Runs/Endpoints/Create.antt =====
-- What `create_run` does.
use mathlib.Core.Path.{subst}
use open_langgraph_platform.Prelude.{
  ◌≡◌, ◌≢◌, ap, ◌∙◌, Bool, true, false, ◌||◌, not, Option, none, some, List, [], ◌∷◌, ◌++◌, arith,
  Text, codes, text_eq, text_eq_refl, Bool-cases, Option-cases, inl, inr, is_some,
}
use open_langgraph_platform.Dict.{has-inserted, lookup}
use open_langgraph_platform.Runs.{
  RunRow, ThreadRow, Server, set_thread_status, find_run, find_thread,
}
use open_langgraph_platform.Runs.Execute.Ends.{status_of}
use open_langgraph_platform.Runs.Endpoints.{replied, RunCreate, created, resume_refused, create_run}
use open_langgraph_platform.Runs.Endpoints.Control.{replied_eq}

abbrev pub thread_status : Option ThreadRow → Option Text
thread_status none = none
thread_status (some t) = some t.status

-- the status is "interrupted"
abbrev pub is_interrupted : Option Text → Bool
is_interrupted none = false
is_interrupted (some status) = text_eq status (codes "interrupted")

-- What the endpoint has done when it replies.
pub record Created (srv srv' : Server) (run_id thread_id : Text) (request : RunCreate)
    : Type 0 where
  -- the run is pending
  pub pending : status_of (find_run run_id srv'.runs) ≡ some (codes "pending")
  -- its thread is busy
  pub busy : thread_status (find_thread thread_id srv'.threads) ≡ some (codes "busy")
  -- its task is active
  pub active : is_some (lookup run_id srv'.active_runs) ≡ true
  -- a resume was of an interrupted thread
  pub resumed :
      (not request.resume || is_interrupted (thread_status (find_thread thread_id srv.threads)))
      ≡ true

find-append :
    (run_id : Text) (runs : List RunRow) (r : RunRow)
    → find_run run_id runs ≡ none
    → text_eq r.run_id run_id ≡ true
    → find_run run_id (runs ++ r ∷ []) ≡ some r
unfolding find_run
find-append run_id [] r h e = rw e
find-append run_id (q ∷ runs) r h e =
    ground (arith, λ (n : find_run run_id runs ≡ none). find-append run_id runs r n e)

thread_status-set :
    (threads : List ThreadRow) (thread_id status : Text)
    → is_some (find_thread thread_id threads) ≡ true
    → thread_status (find_thread thread_id (set_thread_status threads thread_id status))
      ≡ some status
unfolding find_thread set_thread_status
thread_status-set [] thread_id status h = cc
thread_status-set (t ∷ threads) thread_id status h =
    elim (Bool-cases (text_eq t.thread_id thread_id)) [
      | inl p ↦ rw p (rw p)
      | inr p ↦ rw p (rw p (thread_status-set threads thread_id status (rw p at h)))
    ]

created-Created :
    (srv : Server) (run_id thread_id user_id : Text) (request : RunCreate)
    → find_run run_id srv.runs ≡ none
    → is_some (find_thread thread_id srv.threads) ≡ true
    → (not request.resume || is_interrupted (thread_status (find_thread thread_id srv.threads)))
      ≡ true
    → Created srv (created srv run_id thread_id user_id request) run_id thread_id request
unfolding created
created-Created srv run_id thread_id user_id request f i r = record {
  pending = ap status_of (find-append run_id srv.runs _ f (text_eq_refl run_id));
  busy = thread_status-set srv.threads thread_id (codes "busy") i;
  active = has-inserted run_id _ srv.active_runs;
  resumed = r;
}

resume_accepted :
    (o : Option ThreadRow) (request : RunCreate)
    → resume_refused o request ≡ none
    → (not request.resume || is_interrupted (thread_status o)) ≡ true
unfolding resume_refused
resume_accepted none request h = ground arith
resume_accepted (some t) request h = ground arith

-- A refused resume is never a reply.
refused_reply :
    (o : Option ThreadRow) (request : RunCreate) {srv : Server}
    → resume_refused o request ≢ some (replied srv)
unfolding resume_refused
refused_reply none request h = ground arith
refused_reply (some t) request h = ground arith

-- When the endpoint that creates a run replies, the run is pending, its thread busy and its task active;
-- the assistant and its graph were found, and a resume was of a thread in the status "interrupted". The
-- id of the run is a new one.
pub create_run-Created :
    (srv srv' : Server) (run_id thread_id user_id : Text) (graph_found : Bool) (request : RunCreate)
    → find_run run_id srv.runs ≡ none
    → create_run srv run_id thread_id user_id graph_found request ≡ replied srv'
    → Created srv srv' run_id thread_id request × (graph_found ≡ true)
unfolding create_run
create_run-Created srv srv' run_id thread_id user_id graph_found request f h =
    elim (Option-cases (resume_refused (find_thread thread_id srv.threads) request)) [
      | inr (reply, p) ↦ absurd (
          refused_reply (find_thread thread_id srv.threads) request
            (p ∙ ap some (rw (create_run, p) at h)))
      | inl p ↦ elim (Bool-cases graph_found) [
        | inr g ↦ cc (rw (create_run, p, g) at h)
        | inl g ↦ elim (Bool-cases (is_some (find_thread thread_id srv.threads))) [
          | inr i ↦ cc (rw (create_run, p, g, i) at h)
          | inl i ↦ (
            subst (λ q. Created srv q run_id thread_id request)
                (replied_eq (rw (create_run, p, g, i) at h))
                (created-Created srv run_id thread_id user_id request f i
                  (resume_accepted (find_thread thread_id srv.threads) request p)),
            g,
          )
        ]
      ]
    ]
