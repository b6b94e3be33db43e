-- ===== src/BrokerManager/Cleanup.antt =====
-- services/broker.py: which brokers the clean-up removes.
use open_langgraph_platform.Prelude.{
  ℕ, ◌≡◌, refl, Bool, false, Option, none, some, List, [], ◌∷◌, arith, Text, text_eq, text_eq_iff,
  any, if◌then◌else◌, ◌∙◌,
}
use open_langgraph_platform.Dict.{Dict, lookup, IsUnique}
use open_langgraph_platform.Broker.{RunBroker}
use open_langgraph_platform.BrokerManager.Lookup.{get-cleanup_remove}
use open_langgraph_platform.BrokerManager.{
  BrokerManager, get_broker, is_stale, to_remove, remove_all, remove_broker, cleanup_old_brokers,
}

-- `run_id in ids`
abbrev listed : Text → List Text → Bool
listed run_id ids = any (λ i. text_eq i run_id) ids

get-remove_all :
    (m : BrokerManager) (ids : List Text) (run_id : Text)
    → get_broker (remove_all m ids) run_id
      ≡ (if listed run_id ids then none else get_broker m run_id)
unfolding remove_all get_broker
get-remove_all m [] run_id = refl
get-remove_all m (i ∷ ids) run_id =
    get-remove_all (remove_broker m i) ids run_id
    ∙ (unfold get_broker in ground (arith, (get-cleanup_remove m i run_id).1))

abbrev pub stale_at : Option RunBroker → ℕ → Bool
stale_at none now = false
stale_at (some b) now = is_stale b now

listed-to_remove :
    (d : Dict RunBroker) (now : ℕ) (run_id : Text)
    → IsUnique d
    → listed run_id (to_remove d now) ≡ stale_at (lookup run_id d) now
unfolding to_remove lookup
listed-to_remove [] now run_id u = refl
listed-to_remove ((i, b) ∷ d) now run_id u =
    ground (arith, listed-to_remove d now run_id u.1, text_eq_iff i run_id)

-- A clean-up takes out exactly the brokers that are finished, empty and more than an hour old, and
-- leaves every other broker as it was.
pub get-cleanup_old_brokers :
    (m : BrokerManager) (now : ℕ) (run_id : Text)
    → IsUnique m.brokers
    → get_broker (cleanup_old_brokers m now) run_id
      ≡ (if stale_at (get_broker m run_id) now then none else get_broker m run_id)
unfolding cleanup_old_brokers
get-cleanup_old_brokers m now run_id u =
    get-remove_all m (to_remove m.brokers now) run_id
    ∙ (unfold get_broker in rw (listed-to_remove m.brokers now run_id u))
