-- ===== src/Runs/Endpoints.antt =====
-- api/runs.py: the endpoints that create, cancel, interrupt and delete a run, with
-- services/streaming_service.py, `cancel_run` and `interrupt_run`.
pub mod Control
pub mod Create
pub mod Delete
pub mod Moves
use open_langgraph_platform.Prelude.{
  ℕ, Bool, true, false, ◌&&◌, ◌||◌, not, Option, none, some, List, [], ◌∷◌, ◌++◌, Text, codes,
  text_eq, if◌then◌else◌, any, is_some, filter,
}
use open_langgraph_platform.Dict.{lookup, insert, remove}
use open_langgraph_platform.Broker.{Put, ignored, accepted, waiting}
use open_langgraph_platform.Streaming.{Service}
use open_langgraph_platform.Streaming.Producer.{signal_run_cancelled, signal_run_error}
use open_langgraph_platform.Runs.{
  RunRow, ThreadRow, Task, Server, live_task, update_run_status, set_thread_status, find_run,
  find_thread, is_active,
}

-- A reply, an HTTP error, or the server at a point where the endpoint waits: for room in the run's
-- queue, or for the run's task.
pub data Reply : Type 0 where
  replied : Server → Reply
  not_found : Reply
  bad_request : Reply
  conflict : Reply
  awaiting : Server → Reply

pub record RunCreate : Type 0 where
  pub resume : Bool
  pub stream_mode : Option (List Text)

-- `_normalize_stream_modes`; a single mode is a list of one
normalize_stream_modes : List Text → List Text
normalize_stream_modes [] = []
normalize_stream_modes (mode ∷ modes) =
    (if text_eq mode (codes "messages-tuple") then codes "messages" else mode)
    ∷ normalize_stream_modes modes

-- `execute_run_async`: the client did not ask for "updates"
wants_only_interrupts : Option (List Text) → Bool
unfolding normalize_stream_modes
wants_only_interrupts none = true
wants_only_interrupts (some modes) =
    not (any (λ mode. text_eq mode (codes "updates")) (normalize_stream_modes modes))

-- the row and the task of a new run
created : Server → Text → Text → Text → RunCreate → Server
unfolding wants_only_interrupts
created srv run_id thread_id user_id request = record srv {
  threads = set_thread_status srv.threads thread_id (codes "busy");
  runs =
      srv.runs
      ++ record {
        run_id = run_id;
        thread_id = thread_id;
        user_id = user_id;
        status = codes "pending";
        output = none;
        error_message = none;
      }
        ∷ [];
  active_runs =
      insert run_id
        (record {
          thread_id = thread_id;
          only_interrupt_updates = wants_only_interrupts request.stream_mode;
          event_counter = 0;
          final_output = none;
          has_interrupt = false;
          is_done = false;
        })
        srv.active_runs;
}

-- the test of `create_run` for a resume
resume_refused : Option ThreadRow → RunCreate → Option Reply
resume_refused thread request =
    if request.resume
    then elim thread [
      | none ↦ some not_found
      | some t ↦ if text_eq t.status (codes "interrupted") then none else some bad_request
    ]
    else none

-- `create_run`: `run_id` is the new UUID; `graph_found` is whether the assistant exists and its graph
-- is registered. A thread that is missing is noticed when its metadata is written.
unfoldable pub create_run : Server → Text → Text → Text → Bool → RunCreate → Reply
unfolding resume_refused created
create_run srv run_id thread_id user_id graph_found request =
    let thread = find_thread thread_id srv.threads in
    elim (resume_refused thread request) [
      | some reply ↦ reply
      | none ↦
          if not graph_found
          then not_found
          else if is_some thread
          then replied (created srv run_id thread_id user_id request)
          else not_found
    ]

-- The update of the status after a signal. While `put` waits nothing is written.
after_signal : Service × Put → Server → Text → Text → Reply
after_signal (s, waiting) srv run_id status = awaiting (record srv { service = s })
after_signal (s, p) srv run_id status =
    replied (record srv { service = s; runs = update_run_status srv.runs run_id status none none })

-- `streaming_service.cancel_run` and `interrupt_run`
unfoldable pub cancel_run : Server → Text → ℕ → Reply
unfolding after_signal
cancel_run srv run_id now =
    after_signal (signal_run_cancelled srv.service run_id now) srv run_id (codes "cancelled")

unfoldable pub interrupt_run : Server → Text → ℕ → Reply
unfolding after_signal
interrupt_run srv run_id now =
    after_signal (signal_run_error srv.service run_id now (codes "Run was interrupted")) srv run_id
      (codes "interrupted")

-- the run with the given id, thread and owner
unfoldable pub owned : Text → Text → Text → RunRow → Bool
owned run_id thread_id user_id r =
    text_eq r.run_id run_id && text_eq r.thread_id thread_id && text_eq r.user_id user_id

unfoldable pub select_run : Text → Text → Text → List RunRow → Option RunRow
unfolding owned
select_run run_id thread_id user_id [] = none
select_run run_id thread_id user_id (r ∷ runs) =
    if owned run_id thread_id user_id r then some r else select_run run_id thread_id user_id runs

-- the endpoint's own write of the status, and the wait for the task
settled : Reply → Text → Text → Bool → Reply
settled (replied srv) run_id status wait =
    let written = record srv { runs = update_run_status srv.runs run_id status none none } in
    if wait && is_some (live_task (lookup run_id srv.active_runs))
    then awaiting written
    else replied written
settled reply run_id status wait = reply

pub data CancelAction : Type 0 where
  cancel interrupt : CancelAction

stop_run : CancelAction → Server → Text → ℕ → Bool → Reply
unfolding cancel_run interrupt_run settled
stop_run cancel srv run_id now wait =
    settled (cancel_run srv run_id now) run_id (codes "cancelled") wait
stop_run interrupt srv run_id now wait =
    settled (interrupt_run srv run_id now) run_id (codes "interrupted") wait

unfoldable pub cancel_run_endpoint : Server → Text → Text → Text → ℕ → CancelAction → Bool → Reply
unfolding stop_run
cancel_run_endpoint srv thread_id run_id user_id now action wait =
    elim (select_run run_id thread_id user_id srv.runs) [
      | none ↦ not_found
      | some r ↦ stop_run action srv run_id now wait
    ]

-- `update_run`: other values of `status` than the two change nothing
unfoldable pub update_run : Server → Text → Text → Text → ℕ → Text → Reply
unfolding stop_run
update_run srv thread_id run_id user_id now status =
    elim (select_run run_id thread_id user_id srv.runs) [
      | none ↦ not_found
      | some r ↦
          if text_eq status (codes "cancelled")
          then stop_run cancel srv run_id now false
          else if text_eq status (codes "interrupted")
          then stop_run interrupt srv run_id now false
          else replied srv
    ]

-- What the endpoint that deletes a run comes to: 204 and the task that it tells to cancel, 404, 409, or the
-- server at a point where it waits, for room in the run's queue or for the run's task.
pub data Deletion : Type 0 where
  deleted : Server → Option Task → Deletion
  missing active : Deletion
  signalling joining : Server → Deletion

-- The end of `delete_run`. A task that is not done is told to cancel.
unfoldable pub delete_row : Server → Text → Text → Text → Deletion
unfolding owned
delete_row srv thread_id run_id user_id =
    deleted
      (record srv {
        runs = filter (λ r. not (owned run_id thread_id user_id r)) srv.runs;
        active_runs = remove run_id srv.active_runs;
      })
      (live_task (lookup run_id srv.active_runs))

-- with `force`, once the active run was signalled: its task is awaited, if it has one
after_cancel : Reply → Text → Text → Text → Deletion
unfolding delete_row
after_cancel (replied srv) thread_id run_id user_id =
    if is_some (live_task (lookup run_id srv.active_runs))
    then joining srv
    else delete_row srv thread_id run_id user_id
after_cancel (awaiting srv) thread_id run_id user_id = signalling srv
after_cancel not_found thread_id run_id user_id = missing
after_cancel _ thread_id run_id user_id = active

unfoldable pub delete_run : Server → Text → Text → Text → ℕ → Bool → Deletion
unfolding after_cancel
delete_run srv thread_id run_id user_id now force =
    elim (select_run run_id thread_id user_id srv.runs) [
      | none ↦ missing
      | some r ↦
          if is_active r.status
          then (if force
              then after_cancel (cancel_run srv run_id now) thread_id run_id user_id
              else active)
          else delete_row srv thread_id run_id user_id
    ]

-- The awaited task is done, with whatever exception, on the server `later`.
unfoldable pub joined : Deletion → Server → Text → Text → Text → Deletion
unfolding delete_row
joined (joining srv) later thread_id run_id user_id = delete_row later thread_id run_id user_id
joined d later thread_id run_id user_id = d
