-- ===== src/Streaming/Producer/Cancel.antt =====
-- What a signal to a run's stream does.
use open_langgraph_platform.Prelude.{
  ℕ, ◌≡◌, ◌≢◌, refl, ◌∙◌, false, arith, Text, text_eq, text_eq_refl,
}
use open_langgraph_platform.Prelude.Int.{suc_ℤ}
use open_langgraph_platform.Value.{Fields}
use open_langgraph_platform.Dict.{insert, lookup-insert}
use open_langgraph_platform.Broker.{Put, ignored, accepted, waiting, mark_finished}
use open_langgraph_platform.BrokerManager.{
  get_broker, get_or_create_broker, cleanup_broker, set_broker,
}
use open_langgraph_platform.BrokerManager.Lookup.{get-get_or_create, get-cleanup_remove}
use open_langgraph_platform.Streaming.{Service, counter_of}
use open_langgraph_platform.Streaming.Producer.{take_put, after_put, signal_end, is_run_streaming}

-- What a signal does once `put` has answered.
abbrev settled : Put → Service → Text → Service
settled p s run_id = after_put p (take_put p s run_id) run_id

counter-settled :
    (p : Put) (s : Service) (run_id : Text)
    → counter_of (settled p s run_id) run_id ≡ counter_of s run_id
unfolding after_put take_put
counter-settled ignored s run_id = refl
counter-settled (accepted b) s run_id = refl
counter-settled waiting s run_id = refl

pub stops :
    (s : Service) (run_id : Text)
    → is_run_streaming (record s { manager = cleanup_broker s.manager run_id }) run_id ≡ false
unfolding is_run_streaming mark_finished
stops s run_id = ground (arith, (get-cleanup_remove s.manager run_id run_id).0, text_eq_refl run_id)

stops-settled :
    (p : Put) (s : Service) (run_id : Text)
    → p ≢ waiting
    → is_run_streaming (settled p s run_id) run_id ≡ false
unfolding after_put
stops-settled ignored s run_id h = stops (take_put ignored s run_id) run_id
stops-settled (accepted b) s run_id h = stops (take_put (accepted b) s run_id) run_id
stops-settled waiting s run_id h = absurd (h refl)

keeps :
    (s : Service) (run_id other : Text)
    → text_eq run_id other ≡ false
    → is_run_streaming (record s { manager = cleanup_broker s.manager run_id }) other
      ≡ is_run_streaming s other
unfolding is_run_streaming
keeps s run_id other h = ground (arith, (get-cleanup_remove s.manager run_id other).0)

keeps-take_put :
    (p : Put) (s : Service) (run_id other : Text)
    → text_eq run_id other ≡ false
    → is_run_streaming (take_put p s run_id) other ≡ is_run_streaming s other
unfolding take_put is_run_streaming get_broker set_broker
keeps-take_put ignored s run_id other h = refl
keeps-take_put (accepted b) s run_id other h =
    ground (arith, lookup-insert run_id other b s.manager.brokers)
keeps-take_put waiting s run_id other h = refl

keeps-settled :
    (p : Put) (s : Service) (run_id other : Text)
    → text_eq run_id other ≡ false
    → is_run_streaming (settled p s run_id) other ≡ is_run_streaming s other
unfolding after_put
keeps-settled waiting s run_id other h = keeps-take_put waiting s run_id other h
keeps-settled ignored s run_id other h =
    keeps (take_put ignored s run_id) run_id other h ∙ keeps-take_put ignored s run_id other h
keeps-settled (accepted b) s run_id other h =
    keeps (take_put (accepted b) s run_id) run_id other h
    ∙ keeps-take_put (accepted b) s run_id other h

-- the service when the end event is offered to the run's broker
abbrev offered : Service → Text → ℕ → Service
offered s run_id now = record s {
  event_counters = insert run_id (suc_ℤ (counter_of s run_id)) s.event_counters;
  manager = (get_or_create_broker s.manager run_id now).0;
}

counter-offered :
    (s : Service) (run_id : Text) (now : ℕ)
    → counter_of (offered s run_id now) run_id ≡ suc_ℤ (counter_of s run_id)
counter-offered s run_id now = ground (
  arith,
  lookup-insert run_id run_id (suc_ℤ (counter_of s run_id)) s.event_counters,
  text_eq_refl run_id,
)

streaming-offered :
    (s : Service) (run_id other : Text) (now : ℕ)
    → text_eq run_id other ≡ false
    → is_run_streaming (offered s run_id now) other ≡ is_run_streaming s other
unfolding is_run_streaming
streaming-offered s run_id other now h =
    ground (arith, (get-get_or_create s.manager run_id other now).1)

-- A signal that a run was cancelled, or that it failed, takes the next number of the run's events.
-- Unless it still waits for room in the queue, the run is no longer streaming afterwards. Whether
-- any other run is streaming does not change.
pub signal_end-stops :
    (s : Service) (run_id other : Text) (now : ℕ) (payload : Fields)
    → (signal_end s run_id now payload).1 ≢ waiting
    → text_eq run_id other ≡ false
    → let s' = (signal_end s run_id now payload).0 in
      (counter_of s' run_id ≡ suc_ℤ (counter_of s run_id))
      × (is_run_streaming s' run_id ≡ false)
      × (is_run_streaming s' other ≡ is_run_streaming s other)
unfolding signal_end
signal_end-stops s run_id other now payload w h = (
  counter-settled (signal_end s run_id now payload).1 (offered s run_id now) run_id
      ∙ counter-offered s run_id now,
  stops-settled (signal_end s run_id now payload).1 (offered s run_id now) run_id w,
  keeps-settled (signal_end s run_id now payload).1 (offered s run_id now) run_id other h
      ∙ streaming-offered s run_id other now h,
)
