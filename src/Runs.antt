-- ===== src/Runs.antt =====
-- api/runs.py: the life of a run. The server's state is the streaming service with the rows of the
-- tables `runs` and `threads` and the tasks in `active_runs`. A task is held as its local variables.
pub mod Execute
pub mod Keeps
pub mod Endpoints
pub mod Schedule
mod Examples
use open_langgraph_platform.Prelude.{
  ℕ, Bool, true, false, ◌||◌, Option, none, some, List, [], ◌∷◌, Text, codes, text_eq,
  if◌then◌else◌, map,
}
use open_langgraph_platform.Value.{Value}
use open_langgraph_platform.Dict.{Dict}
use open_langgraph_platform.Serializer.{serialize}
use open_langgraph_platform.Streaming.{Service}

-- core/orm.py, `Run`, as far as the life cycle reads it
pub record RunRow : Type 0 where
  pub run_id : Text
  pub thread_id : Text
  pub user_id : Text
  pub status : Text
  pub output : Option Value
  pub error_message : Option Text

pub record ThreadRow : Type 0 where
  pub thread_id : Text
  pub status : Text

-- the local variables of `execute_run_async` between two rounds of its loop
pub record Task : Type 0 where
  pub thread_id : Text
  pub only_interrupt_updates : Bool
  pub event_counter : ℕ
  pub final_output : Option Value
  pub has_interrupt : Bool
  -- `task.done()`
  pub is_done : Bool

pub record Server : Type 0 where
  pub service : Service
  pub runs : List RunRow
  pub threads : List ThreadRow
  pub active_runs : Dict Task

or_keep {ℓ} : {A : Type ℓ} → Option A → Option A → Option A
or_keep none old = old
or_keep (some new) old = some new

serialized : Option Value → Option Value
serialized none = none
serialized (some v) = some (serialize v)

-- `values(**values)`: the output and the error are written only where they are not `None`
written : Text → Option Value → Option Text → RunRow → RunRow
unfolding or_keep serialized
written status output error r = record r {
  status = status;
  output = or_keep (serialized output) r.output;
  error_message = or_keep error r.error_message;
}

-- `update(RunORM).where(RunORM.run_id == run_id)`
unfoldable pub update_run_status :
    List RunRow → Text → Text → Option Value → Option Text → List RunRow
unfolding written
update_run_status runs run_id status output error =
    map (λ r. if text_eq r.run_id run_id then written status output error r else r) runs

unfoldable pub set_thread_status : List ThreadRow → Text → Text → List ThreadRow
set_thread_status threads thread_id status =
    map (λ t. if text_eq t.thread_id thread_id then record t { status = status } else t) threads

-- the row that a select by run id finds
unfoldable pub find_run : Text → List RunRow → Option RunRow
find_run run_id [] = none
find_run run_id (r ∷ runs) = if text_eq r.run_id run_id then some r else find_run run_id runs

unfoldable pub find_thread : Text → List ThreadRow → Option ThreadRow
find_thread thread_id [] = none
find_thread thread_id (t ∷ threads) =
    if text_eq t.thread_id thread_id then some t else find_thread thread_id threads

-- the task that runs still
abbrev pub live_task : Option Task → Option Task
live_task none = none
live_task (some t) = if t.is_done then none else some t

-- `status in ["pending", "running", "streaming"]`
abbrev pub is_active : Text → Bool
is_active status =
    text_eq status (codes "pending")
    || text_eq status (codes "running")
    || text_eq status (codes "streaming")
