-- ===== src/Runs/Keeps.antt =====
-- What every step of a server keeps of a run's events.
use open_langgraph_platform.Prelude.{
  ◌≡◌, ◌∙◌, ap, sym, true, ◌⊎◌, inl, inr, [], arith, Text, is_some,
}
use open_langgraph_platform.Dict.{lookup}
use open_langgraph_platform.EventStore.{has_id}
use open_langgraph_platform.Streaming.{Service, batch_of}
use open_langgraph_platform.Streaming.Storing.Batches.{held}
use open_langgraph_platform.Streaming.Storing.Contents.{
  row_content, seen, has_id-row_content, held_seen,
}
use open_langgraph_platform.Streaming.Producer.Cleanup.{SameStore}
use open_langgraph_platform.Runs.{Server}

-- Unless the run has a task, none of its events waits to be stored.
abbrev pub Quiet : Text → Server → Type 0
Quiet run_id srv =
    (is_some (lookup run_id srv.active_runs) ≡ true) ⊎ (batch_of srv.service run_id ≡ [])

pub record Keeps (run_id : Text) (before after : Server) : Type 0 where
  -- an event that was stored or waited still is or does
  pub old :
      (event_id : Text)
      → held before.service run_id event_id ≡ true
      → held after.service run_id event_id ≡ true
  pub quiet : Quiet run_id before → Quiet run_id after

pub Keeps-refl : (run_id : Text) (srv : Server) → Keeps run_id srv srv
Keeps-refl run_id srv = record { old = λ event_id h. h; quiet = λ q. q }

pub Keeps-trans :
    (run_id : Text) (a b c : Server) → Keeps run_id a b → Keeps run_id b c → Keeps run_id a c
Keeps-trans run_id a b c k l = record {
  old = λ event_id h. l.old event_id (k.old event_id h);
  quiet = λ q. l.quiet (k.quiet q);
}

-- A step that touches neither the store nor the tasks.
pub Keeps-same :
    (run_id : Text) (a b : Server)
    → SameStore a.service b.service
    → b.active_runs ≡ a.active_runs
    → Keeps run_id a b
Keeps-same run_id a b same t = record {
  old = λ event_id h. ground (arith, same, h);
  quiet = λ q. elim q [ inl p ↦ inl (rw t p) | inr p ↦ inr (ground (arith, same, p)) ];
}

held-stored :
    (s : Service) (run_id event_id : Text)
    → has_id event_id s.table ≡ true
    → held s run_id event_id ≡ true
held-stored s run_id event_id h = ground (arith, h)

-- A step after which all is stored.
pub Keeps-stored :
    (run_id : Text) (a b : Server)
    → batch_of b.service run_id ≡ []
    → ((event_id : Text) → row_content event_id b.service.table ≡ seen a.service run_id event_id)
    → Keeps run_id a b
Keeps-stored run_id a b e f = record {
  old = λ event_id h. held-stored b.service run_id event_id (
      has_id-row_content event_id b.service.table
      ∙ ap is_some (f event_id)
      ∙ sym (held_seen a.service run_id event_id)
      ∙ h);
  quiet = λ q. inr e;
}
