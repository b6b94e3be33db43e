-- ===== src/BrokerManager.antt =====
-- services/broker.py, `BrokerManager`: the brokers of all runs, by run id. The maximum queue size and
-- the policy are those that the environment sets for each new broker.
pub mod Lookup
pub mod Cleanup
mod Examples
use open_langgraph_platform.Prelude.{
  ℕ, Bool, true, false, ◌&&◌, Option, none, some, List, [], ◌∷◌, Text, ltb, if◌then◌else◌,
}
use open_langgraph_platform.Prelude.Int.{ℤ}
use open_langgraph_platform.Dict.{Dict, lookup, insert, remove}
use open_langgraph_platform.Broker
use open_langgraph_platform.Broker.{
  RunBroker, BackpressurePolicy, mark_finished, is_finished, is_empty, get_age,
}

pub record Environment : Type 0 where
  pub queue_maxsize : Option ℤ
  pub policy : BackpressurePolicy

pub record BrokerManager : Type 0 where
  pub environment : Environment
  pub brokers : Dict RunBroker

unfoldable pub new_broker : BrokerManager → Text → ℕ → RunBroker
new_broker m run_id now = Broker.init run_id m.environment.queue_maxsize m.environment.policy now

created : Option RunBroker → BrokerManager → Text → ℕ → BrokerManager × RunBroker
unfolding new_broker
created (some b) m run_id now = (m, b)
created none m run_id now =
    let b = new_broker m run_id now in (record m { brokers = insert run_id b m.brokers }, b)

unfoldable pub get_or_create_broker : BrokerManager → Text → ℕ → BrokerManager × RunBroker
unfolding created
get_or_create_broker m run_id now = created (lookup run_id m.brokers) m run_id now

unfoldable pub get_broker : BrokerManager → Text → Option RunBroker
get_broker m run_id = lookup run_id m.brokers

-- A broker is one object for all that hold it: a change of it is a write of its entry.
unfoldable pub set_broker : BrokerManager → Text → RunBroker → BrokerManager
set_broker m run_id b = record m { brokers = insert run_id b m.brokers }

finish_found : Option RunBroker → BrokerManager → Text → BrokerManager
unfolding set_broker
finish_found none m run_id = m
finish_found (some b) m run_id = set_broker m run_id (mark_finished b)

unfoldable pub cleanup_broker : BrokerManager → Text → BrokerManager
unfolding finish_found
cleanup_broker m run_id = finish_found (lookup run_id m.brokers) m run_id

-- a no-op for an unknown run
unfoldable pub remove_broker : BrokerManager → Text → BrokerManager
unfolding cleanup_broker
remove_broker m run_id =
    let finished = cleanup_broker m run_id in
    record finished { brokers = remove run_id finished.brokers }

-- `broker.is_finished() and broker.is_empty() and broker.get_age() > 3600`
unfoldable pub is_stale : RunBroker → ℕ → Bool
unfolding is_finished is_empty get_age
is_stale b now = is_finished b && is_empty b && ltb 3600 (get_age b now)

to_remove : List (Text × RunBroker) → ℕ → List Text
to_remove [] now = []
to_remove ((run_id, b) ∷ brokers) now =
    let rest = to_remove brokers now in if is_stale b now then run_id ∷ rest else rest

remove_all : BrokerManager → List Text → BrokerManager
unfolding remove_broker
remove_all m [] = m
remove_all m (run_id ∷ ids) = remove_all (remove_broker m run_id) ids

-- One round of `_cleanup_old_brokers`.
unfoldable pub cleanup_old_brokers : BrokerManager → ℕ → BrokerManager
unfolding to_remove remove_all
cleanup_old_brokers m now = remove_all m (to_remove m.brokers now)
