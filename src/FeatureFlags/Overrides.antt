-- ===== src/FeatureFlags/Overrides.antt =====
-- The overrides of `FeatureFlagService`, and `evaluate_flags`.
use open_langgraph_platform.Prelude.{
  ℕ, Bool, true, false, ◌&&◌, Option, none, some, List, [], ◌∷◌, ◌++◌, Text, codes, text_eq,
  or_else,
}
use open_langgraph_platform.Dict.{Dict, insert}
use open_langgraph_platform.Value.{Value}
use open_langgraph_platform.FeatureFlags.{
  FeatureFlag, FeatureFlagOverrideCreate, FeatureFlagOverride, FlagEvaluationContext,
  FlagEvaluationResult,
}
use open_langgraph_platform.FeatureFlags.Evaluation.{World, scope_eq, evaluate_single_flag}
use open_langgraph_platform.FeatureFlags.Service.{
  Service, Reply, raise, conflict, not_found, of_override, find, replace, discard, is_override,
  get_flag_by_key, log_change, logged, Redis,
}

-- `target_id == request.target_id`, which is `IS NULL` for none
same_target : Option Text → Option Text → Bool
same_target none none = true
same_target (some a) (some b) = text_eq a b
same_target _ _ = false

unfoldable pub is_same_override :
    Text → Text → FeatureFlagOverrideCreate → FeatureFlagOverride → Bool
unfolding scope_eq same_target
is_same_override flag_id org_id request o =
    text_eq o.flag_id flag_id
    && text_eq o.org_id org_id
    && scope_eq o.scope request.scope
    && same_target o.target_id request.target_id

new_override :
    Text → FeatureFlag → Text → FeatureFlagOverrideCreate → Text → ℕ → FeatureFlagOverride
new_override override_id flag org_id request created_by now = record {
  override_id = override_id;
  flag_id = flag.flag_id;
  flag_key = request.flag_key;
  org_id = org_id;
  scope = request.scope;
  target_id = request.target_id;
  value = request.value;
  enabled = request.enabled;
  reason = request.reason;
  expires_at = request.expires_at;
  created_at = now;
  updated_at = now;
  created_by = some created_by;
}

unfoldable pub add_override :
    Redis
    → Service
    → Text
    → FeatureFlag
    → Text
    → FeatureFlagOverrideCreate
    → Text
    → ℕ
    → Service × Reply FeatureFlagOverride
unfolding find is_same_override new_override log_change logged
add_override redis s override_id flag org_id request created_by now =
    elim (find (is_same_override flag.flag_id org_id request) s.overrides) [
      | some existing ↦ (s, raise conflict)
      | none ↦
          let o = new_override override_id flag org_id request created_by now in
          let stored = record s { overrides = s.overrides ++ o ∷ [] } in
          logged redis
            (log_change stored flag.flag_id request.flag_key org_id (codes "override_added")
              created_by none (some (of_override o)) now)
            stored org_id request.flag_key o
    ]

unfoldable pub create_override :
    Redis
    → Service
    → Text
    → Text
    → FeatureFlagOverrideCreate
    → Text
    → ℕ
    → Service × Reply FeatureFlagOverride
unfolding get_flag_by_key add_override
create_override redis s override_id org_id request created_by now =
    elim (get_flag_by_key s org_id request.flag_key) [
      | none ↦ (s, raise not_found)
      | some flag ↦ add_override redis s override_id flag org_id request created_by now
    ]

pub record FeatureFlagOverrideUpdate : Type 0 where
  pub value : Option Value
  pub enabled : Option Bool
  pub reason : Option (Option Text)
  pub expires_at : Option (Option ℕ)

unfoldable pub updated_override :
    FeatureFlagOverrideUpdate → ℕ → FeatureFlagOverride → FeatureFlagOverride
updated_override u now o = record o {
  value = or_else u.value o.value;
  enabled = or_else u.enabled o.enabled;
  reason = or_else u.reason o.reason;
  expires_at = or_else u.expires_at o.expires_at;
  updated_at = now;
}

unfoldable pub update_override :
    Redis
    → Service
    → Text
    → Text
    → FeatureFlagOverrideUpdate
    → Text
    → ℕ
    → Service × Reply FeatureFlagOverride
unfolding find replace updated_override log_change logged
update_override redis s org_id override_id request updated_by now =
    elim (find (is_override org_id override_id) s.overrides) [
      | none ↦ (s, raise not_found)
      | some o ↦
          let new = updated_override request now o in
          let stored = record s {
            overrides = replace (is_override org_id override_id) new s.overrides;
          } in
          logged redis
            (log_change stored o.flag_id o.flag_key org_id (codes "override_updated") updated_by
              (some (of_override o)) (some (of_override new)) now)
            stored org_id o.flag_key new
    ]

unfoldable pub delete_override :
    Redis → Service → Text → Text → Text → ℕ → Service × Reply (Unit {0})
unfolding find discard log_change logged
delete_override redis s org_id override_id deleted_by now =
    elim (find (is_override org_id override_id) s.overrides) [
      | none ↦ (s, raise not_found)
      | some o ↦
          let stored = record s {
            overrides = discard (is_override org_id override_id) s.overrides;
          } in
          logged redis
            (log_change stored o.flag_id o.flag_key org_id (codes "override_removed") deleted_by
              (some (of_override o)) none now)
            stored org_id o.flag_key tt
    ]

-- the flags that are asked for by key, without the missing ones
flags_by_key : Service → Text → List Text → List FeatureFlag
unfolding get_flag_by_key
flags_by_key s org_id [] = []
flags_by_key s org_id (key ∷ keys) =
    let rest = flags_by_key s org_id keys in
    elim (get_flag_by_key s org_id key) [ none ↦ rest | some f ↦ f ∷ rest ]

-- the loop of `evaluate_flags`, with the cache and the results so far
unfoldable pub evaluate_each :
    World
    → Service
    → Text
    → FlagEvaluationContext
    → List FeatureFlag
    → Dict FlagEvaluationResult
    → Service × Dict FlagEvaluationResult
unfolding evaluate_single_flag
evaluate_each w s org_id context [] results = (s, results)
evaluate_each w s org_id context (flag ∷ flags) results =
    let (cache, result) = evaluate_single_flag w s.cache s.overrides flag org_id context in
    evaluate_each w (record s { cache = cache }) org_id context flags
      (insert flag.base.key result results)

-- `listed` is what `list_flags` answers: the 100 latest active flags of the organization
unfoldable pub evaluate_flags :
    World
    → Service
    → Text
    → FlagEvaluationContext
    → List Text
    → List FeatureFlag
    → Service × Dict FlagEvaluationResult
unfolding flags_by_key evaluate_each
evaluate_flags w s org_id context [] listed = evaluate_each w s org_id context listed []
evaluate_flags w s org_id context (key ∷ keys) listed =
    evaluate_each w s org_id context (flags_by_key s org_id (key ∷ keys)) []
