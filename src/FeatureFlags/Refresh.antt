-- ===== src/FeatureFlags/Refresh.antt =====
-- The cache of results after a change of the flag, and for another organization.
use open_langgraph_platform.Prelude.{◌≡◌, refl, true, Option, none, some, List, Text, text_eq_refl}
use open_langgraph_platform.Dict.{lookup, lookup-insert}
use open_langgraph_platform.FeatureFlags.{
  FeatureFlag, FeatureFlagOverride, FlagEvaluationContext, FlagEvaluationResult,
}
use open_langgraph_platform.FeatureFlags.Evaluation.{
  World, Cache, counts, build_eval_cache_key, overridden, evaluated, evaluate_single_flag,
}
use open_langgraph_platform.FeatureFlags.Service.{Service}

evaluated_hit :
    (o : Option FlagEvaluationResult) (w : World) (cache : Cache)
    (overrides : List FeatureFlagOverride) (flag : FeatureFlag) (org_id : Text)
    (context : FlagEvaluationContext) (r : FlagEvaluationResult)
    → o ≡ some r
    → (evaluated o w cache overrides flag org_id context).1 ≡ r
unfolding evaluated
evaluated_hit none w cache overrides flag org_id context r e = cc
evaluated_hit (some q) w cache overrides flag org_id context r e = cc

evaluated_stores :
    (w : World) (cache : Cache) (overrides : List FeatureFlagOverride) (flag : FeatureFlag)
    (org_id : Text) (context : FlagEvaluationContext)
    → counts w flag ≡ true
    → let (cache', r) = evaluated none w cache overrides flag org_id context in
      lookup (build_eval_cache_key org_id flag.base.key context) cache' ≡ some r
unfolding evaluated
evaluated_stores w cache overrides flag org_id context c =
    let key = build_eval_cache_key org_id flag.base.key context in
    rw
      (
        c,
        lookup-insert key key (overridden w overrides flag org_id context) cache,
        text_eq_refl key,
      )
      refl

-- The key of a result leaves out the organization of the context, which a roll-out by organization
-- hashes: once a result for a user is cached, the same user is answered with it in the context of
-- every other organization.
pub context_org_ignored :
    (w w' : World) (cache : Cache) (overrides : List FeatureFlagOverride) (flag : FeatureFlag)
    (org_id : Text) (context : FlagEvaluationContext) (other : Option Text)
    → counts w flag ≡ true
    → lookup (build_eval_cache_key org_id flag.base.key context) cache ≡ none
    → let (cache', r) = evaluate_single_flag w cache overrides flag org_id context in
      (evaluate_single_flag w' cache' overrides flag org_id (record context { org_id = other })).1
      ≡ r
unfolding evaluate_single_flag
context_org_ignored w w' cache overrides flag org_id context other c miss =
    let key = build_eval_cache_key org_id flag.base.key context in
    rw miss (
      evaluated_hit (lookup key (evaluated none w cache overrides flag org_id context).0) w'
        (evaluated none w cache overrides flag org_id context).0 overrides flag org_id
        (record context { org_id = other }) (evaluated none w cache overrides flag org_id context).1
        (evaluated_stores w cache overrides flag org_id context c))
