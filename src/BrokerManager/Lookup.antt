-- ===== src/BrokerManager/Lookup.antt =====
-- What the operations of the manager do to each run's broker.
use open_langgraph_platform.Prelude.{
  ℕ, ◌≡◌, refl, Option, none, some, arith, Text, text_eq, text_eq_iff, text_eq_refl, or_else,
  if◌then◌else◌,
}
use open_langgraph_platform.Dict.{lookup, lookup-insert, lookup-remove}
use open_langgraph_platform.Broker.{RunBroker, mark_finished}
use open_langgraph_platform.BrokerManager.{
  BrokerManager, new_broker, get_or_create_broker, get_broker, cleanup_broker, remove_broker,
  finish_found,
}

-- `get_or_create_broker` returns the broker that a later `get_broker` of the run finds, the one that
-- was there if there was one, and leaves every other run's broker alone.
pub get-get_or_create :
    (m : BrokerManager) (run_id other : Text) (now : ℕ)
    → let (m', b) = get_or_create_broker m run_id now in
      (get_broker m' run_id ≡ some b)
      × (get_broker m' other ≡ (if text_eq run_id other then some b else get_broker m other))
      × (b ≡ or_else (get_broker m run_id) (new_broker m run_id now))
unfolding get_broker get_or_create_broker
get-get_or_create m run_id other now = ground (
  arith,
  text_eq_iff run_id other,
  text_eq_refl run_id,
  lookup-insert run_id run_id (new_broker m run_id now) m.brokers,
  lookup-insert run_id other (new_broker m run_id now) m.brokers,
)

abbrev pub marked : Option RunBroker → Option RunBroker
marked none = none
marked (some b) = some (mark_finished b)

get-finish_found :
    (o : Option RunBroker) (m : BrokerManager) (run_id other : Text)
    → lookup run_id m.brokers ≡ o
    → get_broker (finish_found o m run_id) other
      ≡ (if text_eq run_id other then marked (get_broker m other) else get_broker m other)
unfolding get_broker finish_found
get-finish_found none m run_id other e = ground (arith, text_eq_iff run_id other)
get-finish_found (some b) m run_id other e =
    ground (arith, text_eq_iff run_id other, lookup-insert run_id other (mark_finished b) m.brokers)

-- `cleanup_broker` marks the run's broker finished, if there is one, and `remove_broker` takes it
-- out; both leave every other run's broker alone.
pub get-cleanup_remove :
    (m : BrokerManager) (run_id other : Text)
    → (get_broker (cleanup_broker m run_id) other
        ≡ (if text_eq run_id other then marked (get_broker m other) else get_broker m other))
      × (get_broker (remove_broker m run_id) other
          ≡ (if text_eq run_id other then none else get_broker m other))
unfolding get_broker cleanup_broker remove_broker
get-cleanup_remove m run_id other =
    let finished = get-finish_found (lookup run_id m.brokers) m run_id other refl in
    (
      finished,
      ground (
        arith,
        finished,
        lookup-remove run_id other (finish_found (lookup run_id m.brokers) m run_id).brokers,
      ),
    )
