-- ===== src/Runs/Examples.antt =====
-- The life of one concrete run.
use open_langgraph_platform.Prelude.{
  ℕ, ◌≡◌, ◌≢◌, refl, ap, Bool, true, false, ◌||◌, not, none, some, List, [], ◌∷◌, codes, text_eq,
  starts_with, Text,
}
use open_langgraph_platform.Value.{
  Value, str, list, tuple, dict, nil, cons, field, end, get_field, has_label,
}
use open_langgraph_platform.Dict.{lookup, insert, remove}
use open_langgraph_platform.EventId.{generate_event_id, extract_event_sequence}
use open_langgraph_platform.Broker
use open_langgraph_platform.Broker.{block, Put, waiting, mark_finished}
use open_langgraph_platform.BrokerManager.{set_broker, get_or_create_broker}
use open_langgraph_platform.Streaming.{
  Write, lands, Service, process_interrupt_updates, next_event_counter,
}
use open_langgraph_platform.Streaming.Storing.{stored_event, store_event_from_raw}
use open_langgraph_platform.Streaming.Storing.Contents.{row_content, first, seen}
use open_langgraph_platform.Streaming.Producer.{
  broker_put, put_to_broker, signal_end, signal_run_cancelled, signal_run_error, cleanup_run,
}
use open_langgraph_platform.Runs.{RunRow, Task, Server, find_run, find_thread}
use open_langgraph_platform.Runs.Execute.{
  Round, done, all_rounds, should_skip_event, clean, finish, cancelled, fail,
}
use open_langgraph_platform.Runs.Execute.Ends.{
  Ended, status_of, finish-Ended, stopped-Ended, final_status,
}
use open_langgraph_platform.Runs.Execute.Stores.{
  loop_content, AllNumbered, IsInTable, Looped, all_rounds-Looped, run_stores,
}
use open_langgraph_platform.Runs.Endpoints.{
  Reply, replied, RunCreate, create_run, cancel, cancel_run, select_run, cancel_run_endpoint,
  Deletion, deleted, delete_row, delete_run, joined,
}
use open_langgraph_platform.Runs.Keeps.{Keeps}
use open_langgraph_platform.Runs.Schedule.{Action, started, yielded, stops, ended, run}
use open_langgraph_platform.Runs.Schedule.Lossless.{run-Keeps}
use open_langgraph_platform.Runs.Endpoints.Control.{cancelled_run_completes}
use open_langgraph_platform.Runs.Endpoints.Delete.{
  is_joining, deleted_on, Deleted, active_row, delete_run-Deleted,
}

abbrev service : Service
service = record {
  event_counters = [];
  storage_batches = [];
  storage_batch_size = 2;
  manager = record { environment = record { queue_maxsize = none; policy = block }; brokers = [] };
  table = [];
  next_write = lands;
}

abbrev task : Task
task = record {
  thread_id = codes "t";
  only_interrupt_updates = true;
  event_counter = 0;
  final_output = none;
  has_interrupt = false;
  is_done = false;
}

abbrev row : RunRow
row = record {
  run_id = codes "r";
  thread_id = codes "t";
  user_id = codes "u";
  status = codes "running";
  output = none;
  error_message = none;
}

abbrev server : Server
server = record {
  service = service;
  runs = row ∷ [];
  threads = record { thread_id = codes "t"; status = codes "busy" } ∷ [];
  active_runs = (codes "r", task) ∷ [];
}

abbrev values_event : Value
values_event =
    tuple (cons (str (codes "values")) (cons (dict (field (codes "x") (str (codes "1")) end)) nil))

-- a message with the tag "langsmith:nostream"
abbrev hidden_event : Value
hidden_event = tuple (
    cons (str (codes "messages")) (
      cons
        (tuple (
          cons (str (codes "hi")) (
            cons
              (dict (field (codes "tags") (list (cons (str (codes "langsmith:nostream")) nil)) end))
              nil)))
        nil))

abbrev raw_events : List Value
raw_events = values_event ∷ hidden_event ∷ values_event ∷ []

hidden_test : should_skip_event hidden_event ≡ true
unfolding should_skip_event get_field text_eq
hidden_test = refl

abbrev server_of : Round → Server
server_of (done s t) = s
server_of _ = server

abbrev task_of : Round → Task
task_of (done s t) = t
task_of _ = task

abbrev passed : Round
passed = all_rounds server (codes "r") 5 task raw_events

passes : all_rounds server (codes "r") 5 task raw_events ≡ done (server_of passed) (task_of passed)
unfolding all_rounds should_skip_event put_to_broker next_event_counter process_interrupt_updates
    store_event_from_raw stored_event broker_put Broker.put Broker.init set_broker
    get_or_create_broker lookup insert get_field has_label text_eq starts_with
    extract_event_sequence generate_event_id
passes = refl

all_rounds-Looped_example :
    Looped (codes "r") raw_events server task (server_of passed) (task_of passed)
all_rounds-Looped_example = all_rounds-Looped raw_events server (codes "r") 5 task passes

landed : (server_of passed).service.next_write ≡ lands
unfolding all_rounds should_skip_event put_to_broker next_event_counter process_interrupt_updates
    store_event_from_raw stored_event broker_put Broker.put Broker.init set_broker
    get_or_create_broker lookup insert get_field has_label text_eq starts_with
    extract_event_sequence generate_event_id
landed = refl

run_stores_example :
    AllNumbered
      (IsInTable (finish (server_of passed) (codes "r") 6 (task_of passed) false).service.table)
      (codes "r")
      true
      0
      raw_events
    × ((event_id : Text)
        → row_content event_id
            (finish (server_of passed) (codes "r") 6 (task_of passed) false).service.table
          ≡ first
              (seen server.service (codes "r") event_id)
              (loop_content (codes "r") true 0 raw_events event_id))
run_stores_example =
    run_stores server (server_of passed) (codes "r") 5 6 task (task_of passed) raw_events false
      passes landed

finish-Ended_example :
    Ended server (finish server (codes "r") 6 task true) (codes "r") (final_status (false || true))
finish-Ended_example = finish-Ended server (codes "r") 6 task true refl

abbrev is_waiting : Put → Bool
is_waiting waiting = true
is_waiting _ = false

cancel_room : is_waiting (signal_run_cancelled service (codes "r") 9).1 ≡ false
unfolding signal_run_cancelled signal_end broker_put Broker.put Broker.init get_or_create_broker
    lookup text_eq
cancel_room = refl

error_room : is_waiting (signal_run_error service (codes "r") 9 (codes "boom")).1 ≡ false
unfolding signal_run_error signal_end broker_put Broker.put Broker.init get_or_create_broker lookup
    text_eq
error_room = refl

cancel_has_room : (signal_run_cancelled service (codes "r") 9).1 ≢ waiting
cancel_has_room e = cc (ap is_waiting e, cancel_room)

error_has_room : (signal_run_error service (codes "r") 9 (codes "boom")).1 ≢ waiting
error_has_room e = cc (ap is_waiting e, error_room)

stopped-Ended_example :
    Ended server (cancelled server (codes "r") 9 task) (codes "r") (codes "cancelled")
    × Ended server (fail server (codes "r") 9 task (codes "boom")) (codes "r") (codes "failed")
stopped-Ended_example =
    stopped-Ended server (codes "r") 9 task (codes "boom") refl cancel_has_room error_has_room

abbrev replied_server : Reply → Server
replied_server (replied s) = s
replied_server _ = server

abbrev stopped : Reply
stopped = cancel_run_endpoint server (codes "t") (codes "r") (codes "u") 9 cancel false

selected : select_run (codes "r") (codes "t") (codes "u") server.runs ≡ some row
unfolding select_run text_eq
selected = refl

stop_test : stopped ≡ replied (replied_server stopped)
unfolding cancel_run_endpoint select_run cancel_run signal_run_cancelled signal_end broker_put
    Broker.put Broker.init get_or_create_broker lookup text_eq
stop_test = refl

cancelled_run_completes_example :
    (status_of (find_run (codes "r") (replied_server stopped).runs) ≡ some (codes "cancelled"))
    × ((replied_server stopped).active_runs ≡ server.active_runs)
    × (status_of
          (find_run (codes "r") (finish (replied_server stopped) (codes "r") 12 task false).runs)
        ≡ some (codes "completed"))
cancelled_run_completes_example =
    cancelled_run_completes server (replied_server stopped) (codes "t") (codes "r") (codes "u") 9 12
      cancel task selected stop_test refl

-- the run has completed
abbrev over : Server
over = record server { runs = record row { status = codes "completed" } ∷ []; active_runs = [] }

-- A client deletes the run while its task runs; the task has failed by then.
abbrev ended_server : Server
ended_server = fail server (codes "r") 9 task (codes "boom")

abbrev removed : Deletion
removed =
    joined (delete_run server (codes "t") (codes "r") (codes "u") 9 true) ended_server (codes "t")
      (codes "r") (codes "u")

abbrev deleted_server : Deletion → Server
deleted_server (deleted s told) = s
deleted_server _ = server

removes : removed ≡ deleted (deleted_server removed) none
unfolding joined delete_row delete_run select_run cancel_run signal_run_cancelled signal_run_error
    signal_end broker_put Broker.put Broker.init get_or_create_broker lookup text_eq fail clean
    cleanup_run remove
removes = refl

delete_run-Deleted_example :
    Deleted
      (deleted_on
        (delete_run server (codes "t") (codes "r") (codes "u") 9 true)
        server
        ended_server)
      (deleted_server removed)
      none
      (codes "t")
      (codes "r")
      (codes "u")
      (codes "q")
    × ((true || not (active_row (select_run (codes "r") (codes "t") (codes "u") server.runs)))
        ≡ true)
unfolding text_eq
delete_run-Deleted_example =
    delete_run-Deleted server ended_server (deleted_server removed) none (codes "t") (codes "r")
      (codes "u") (codes "q") 9 true refl removes

joins_test : is_joining (delete_run server (codes "t") (codes "r") (codes "u") 9 true) ≡ true
unfolding delete_run select_run cancel_run signal_run_cancelled signal_end broker_put Broker.put
    Broker.init get_or_create_broker lookup text_eq
joins_test = refl

abbrev resume : RunCreate
resume = record { resume = true; stream_mode = some (codes "values" ∷ []) }

abbrev paused : Server
paused = record over {
  threads = record { thread_id = codes "t"; status = codes "interrupted" } ∷ [];
}

abbrev resumed : Reply
resumed = create_run paused (codes "n") (codes "t") (codes "u") true resume

resumes : resumed ≡ replied (replied_server resumed)
unfolding create_run find_thread text_eq
resumes = refl

fresh : find_run (codes "n") paused.runs ≡ none
unfolding find_run text_eq
fresh = refl

-- A client cancels the run between two of its events.
abbrev schedule : List (ℕ × Write × Action)
schedule =
    (1, lands, started)
    ∷ (2, lands, yielded values_event)
    ∷ (3, lands, stops cancel false)
    ∷ (4, lands, yielded values_event)
    ∷ (5, lands, ended false)
    ∷ []

run-Keeps_example :
    Keeps
      (codes "r")
      server
      (run (codes "error") (codes "t") (codes "r") (codes "u") server schedule)
run-Keeps_example =
    run-Keeps (codes "error") (codes "t") (codes "r") (codes "u") server schedule
      (refl, (refl, (refl, (refl, (refl, tt)))))
