-- ===== src/BrokerManager/Examples.antt =====
-- A manager with two concrete runs.
use open_langgraph_platform.Prelude.{
  ◌≡◌, refl, Bool, true, false, none, [], ◌∷◌, Text, codes, text_eq,
}
use open_langgraph_platform.Dict.{lookup, insert, remove, IsUnique}
use open_langgraph_platform.Broker.{RunBroker, block}
use open_langgraph_platform.BrokerManager.{BrokerManager, is_stale, cleanup_old_brokers}

abbrev broker_of : Text → Bool → RunBroker
broker_of run_id done = record {
  run_id = run_id;
  maxsize = 1000;
  policy = block;
  queue = [];
  finished = done;
  created_at = 100;
}

abbrev two : BrokerManager
two = record {
  environment = record { queue_maxsize = none; policy = block };
  brokers = (codes "a", broker_of (codes "a") true) ∷ (codes "b", broker_of (codes "b") false) ∷ [];
}

two-IsUnique : IsUnique two.brokers
unfolding lookup text_eq
two-IsUnique = (refl, (refl, tt))

cleanup_test :
    cleanup_old_brokers two 3701
    ≡ record two { brokers = (codes "b", broker_of (codes "b") false) ∷ [] }
unfolding cleanup_old_brokers is_stale remove text_eq lookup insert
cleanup_test = refl
