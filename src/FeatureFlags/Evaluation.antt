-- ===== src/FeatureFlags/Evaluation.antt =====
-- `_evaluate_single_flag`: overrides, the switch and the roll-out of a flag, through the cache of
-- results, whose entries are gone when their time is over. MD5, as a number, and the draw of
-- `random.random() * 100 < percentage` are arguments; what is written in a reason about the percentage
-- is too.
use open_langgraph_platform.Prelude.{
  ℕ, ◌*◌, ◌%◌, Bool, true, false, ◌&&◌, not, Option, none, some, List, [], ◌∷◌, ◌++◌, Text, codes,
  text_eq, if◌then◌else◌, leb, ltb, or_else,
}
use open_langgraph_platform.Dict.{Dict, lookup, insert}
use open_langgraph_platform.Value.{Value}
use open_langgraph_platform.FeatureFlags.{
  FlagStatus, active, status_value, random, user_hash, org_hash, OverrideScope, global, org, user,
  Percentage, below, PercentageRolloutConfig, FeatureFlag, FeatureFlagOverride, is_given,
  FlagEvaluationContext, FlagEvaluationResult,
}

-- what the code takes from outside: `md5`, `draw`, and `str` of a percentage
pub record World : Type 0 where
  pub now : ℕ
  pub md5 : Text → ℕ
  pub draw : Percentage → Bool
  pub show : Percentage → Text

abbrev pub Cache : Type 0
Cache = Dict FlagEvaluationResult

unfoldable pub scope_eq : OverrideScope → OverrideScope → Bool
scope_eq global global = true
scope_eq org org = true
scope_eq user user = true
scope_eq _ _ = false

-- `target_id == …` if one is given, and `IS NULL` otherwise
unfoldable pub targets : Option Text → Option Text → Bool
unfolding is_given
targets target_id row =
    if is_given target_id
    then elim row [ none ↦ false | some r ↦ text_eq r (or_else target_id []) ]
    else elim row [ none ↦ true | some r ↦ false ]

unfoldable pub is_live : ℕ → Option ℕ → Bool
is_live now none = true
is_live now (some t) = ltb now t

unfoldable pub is_active_override :
    Text → Text → OverrideScope → Option Text → ℕ → FeatureFlagOverride → Bool
unfolding scope_eq targets is_live
is_active_override flag_id org_id scope target_id now o =
    text_eq o.flag_id flag_id
    && text_eq o.org_id org_id
    && scope_eq o.scope scope
    && o.enabled
    && is_live now o.expires_at
    && targets target_id o.target_id

-- At most one row fits: a second one is an error of the database layer.
unfoldable pub get_active_override :
    List FeatureFlagOverride
    → Text
    → Text
    → OverrideScope
    → Option Text
    → ℕ
    → Option FeatureFlagOverride
unfolding is_active_override
get_active_override [] flag_id org_id scope target_id now = none
get_active_override (o ∷ rows) flag_id org_id scope target_id now =
    if is_active_override flag_id org_id scope target_id now o
    then some o
    else get_active_override rows flag_id org_id scope target_id now

-- `f"{rollout.seed}:{hash_input}"` if there is a seed
unfoldable pub seeded : Option Text → Text → Text
seeded none hash_input = hash_input
seeded (some []) hash_input = hash_input
seeded (some (c ∷ seed)) hash_input = (c ∷ seed) ++ (codes ":" ++ hash_input)

unfoldable pub in_bucket : World → PercentageRolloutConfig → Text → Bool
unfolding seeded below
in_bucket w rollout hash_input =
    below (w.md5 (seeded rollout.seed hash_input) % 100) rollout.percentage

-- the strategies, behind the two tests of the percentage
unfoldable pub check_strategy : World → PercentageRolloutConfig → Option Text → Text → Text → Bool
unfolding in_bucket is_given
check_strategy w rollout user_id org_id flag_key = elim rollout.strategy [
  | random ↦ w.draw rollout.percentage
  | user_hash ↦
      if is_given user_id
      then in_bucket w rollout (flag_key ++ (codes ":" ++ or_else user_id []))
      else false
  | org_hash ↦ in_bucket w rollout (flag_key ++ (codes ":" ++ org_id))
]

-- `percentage >= 100` and `percentage <= 0`
unfoldable pub check_rollout : World → PercentageRolloutConfig → Option Text → Text → Text → Bool
unfolding check_strategy below
check_rollout w rollout user_id org_id flag_key =
    if leb (100 * rollout.percentage.denominator) rollout.percentage.numerator
    then true
    else if not (below 0 rollout.percentage)
    then false
    else check_strategy w rollout user_id org_id flag_key

-- `a or b` for an optional string
unfoldable pub either : Option Text → Text → Text
either none default = default
either (some []) default = default
either (some (c ∷ t)) default = c ∷ t

unfoldable pub build_eval_cache_key : Text → Text → FlagEvaluationContext → Text
unfolding either
build_eval_cache_key org_id flag_key context =
    codes "ff_eval:"
    ++ (org_id ++ (codes ":" ++ (flag_key ++ (codes ":" ++ either context.user_id (codes "anon")))))

-- a result that is the flag's own
unfoldable pub own_result : FeatureFlag → Value → Bool → Text → Text → ℕ → FlagEvaluationResult
own_result flag value enabled source reason now = record {
  flag_key = flag.base.key;
  value = value;
  enabled = enabled;
  source = source;
  reason = reason;
  flag_id = flag.flag_id;
  override_id = none;
  evaluated_at = now;
}

unfoldable pub override_result : FeatureFlag → Text → FeatureFlagOverride → ℕ → FlagEvaluationResult
unfolding either
override_result flag label o now = record {
  flag_key = flag.base.key;
  value = o.value;
  enabled = true;
  source = codes "override";
  reason = label ++ either o.reason (codes "no reason");
  flag_id = flag.flag_id;
  override_id = some o.override_id;
  evaluated_at = now;
}

-- whether the roll-out keeps the context out
unfoldable pub left_out : World → FeatureFlag → Text → FlagEvaluationContext → Bool
unfolding check_rollout either
left_out w flag org_id context =
    let r = flag.rollout in
    r.enabled
    && not (leb (100 * r.percentage.denominator) r.percentage.numerator)
    && not (check_rollout w r context.user_id (either context.org_id org_id) flag.base.key)

-- behind the overrides
unfoldable pub switched : World → FeatureFlag → Text → FlagEvaluationContext → FlagEvaluationResult
unfolding left_out own_result
switched w flag org_id context =
    if not flag.enabled
    then own_result flag flag.base.default_value false (codes "flag") (codes "Flag is disabled")
        w.now
    else if left_out w flag org_id context
    then own_result flag flag.base.default_value false (codes "rollout")
        (codes "Not in rollout (" ++ (w.show flag.rollout.percentage ++ codes "%)")) w.now
    else own_result flag flag.base.enabled_value true (codes "flag") (codes "Flag is enabled") w.now

-- the override for the context: the user's, and else the organization's
unfoldable pub user_override :
    World
    → List FeatureFlagOverride
    → FeatureFlag
    → Text
    → FlagEvaluationContext
    → Option FeatureFlagOverride
unfolding get_active_override is_given
user_override w overrides flag org_id context =
    if is_given context.user_id
    then get_active_override overrides flag.flag_id org_id user context.user_id w.now
    else none

unfoldable pub org_override :
    World → List FeatureFlagOverride → FeatureFlag → Text → Option FeatureFlagOverride
unfolding get_active_override
org_override w overrides flag org_id =
    get_active_override overrides flag.flag_id org_id org none w.now

unfoldable pub by_overrides :
    Option FeatureFlagOverride
    → Option FeatureFlagOverride
    → World
    → FeatureFlag
    → Text
    → FlagEvaluationContext
    → FlagEvaluationResult
unfolding override_result switched
by_overrides (some o) _ w flag org_id context =
    override_result flag (codes "User override: ") o w.now
by_overrides none (some o) w flag org_id context =
    override_result flag (codes "Org override: ") o w.now
by_overrides none none w flag org_id context = switched w flag org_id context

-- the value of an active flag, which is cached
unfoldable pub overridden :
    World
    → List FeatureFlagOverride
    → FeatureFlag
    → Text
    → FlagEvaluationContext
    → FlagEvaluationResult
unfolding user_override org_override by_overrides
overridden w overrides flag org_id context =
    by_overrides (user_override w overrides flag org_id context)
      (org_override w overrides flag org_id) w flag org_id context

unfoldable pub is_active_status : FlagStatus → Bool
is_active_status active = true
is_active_status _ = false

-- `expires_at and expires_at < now`
unfoldable pub has_expired : Option ℕ → ℕ → Bool
has_expired none now = false
has_expired (some t) now = ltb t now

-- Whether the flag counts, so that its value is cached.
unfoldable pub counts : World → FeatureFlag → Bool
unfolding is_active_status has_expired
counts w flag = is_active_status flag.status && not (has_expired flag.expires_at w.now)

unfoldable pub switched_off : World → FeatureFlag → FlagEvaluationResult
unfolding is_active_status own_result status_value
switched_off w flag =
    own_result flag flag.base.default_value false (codes "default")
      (if is_active_status flag.status
        then codes "Flag has expired"
        else codes "Flag is " ++ status_value flag.status)
      w.now

-- without the cache
unfoldable pub fresh_result :
    World
    → List FeatureFlagOverride
    → FeatureFlag
    → Text
    → FlagEvaluationContext
    → FlagEvaluationResult
unfolding counts switched_off overridden
fresh_result w overrides flag org_id context =
    if counts w flag then overridden w overrides flag org_id context else switched_off w flag

unfoldable pub evaluated :
    Option FlagEvaluationResult
    → World
    → Cache
    → List FeatureFlagOverride
    → FeatureFlag
    → Text
    → FlagEvaluationContext
    → Cache × FlagEvaluationResult
unfolding counts fresh_result build_eval_cache_key
evaluated (some cached) w cache overrides flag org_id context = (cache, cached)
evaluated none w cache overrides flag org_id context =
    let result = fresh_result w overrides flag org_id context in
    (
      if counts w flag
          then insert (build_eval_cache_key org_id flag.base.key context) result cache
          else cache,
      result,
    )

unfoldable pub evaluate_single_flag :
    World
    → Cache
    → List FeatureFlagOverride
    → FeatureFlag
    → Text
    → FlagEvaluationContext
    → Cache × FlagEvaluationResult
unfolding evaluated lookup
evaluate_single_flag w cache overrides flag org_id context =
    evaluated (lookup (build_eval_cache_key org_id flag.base.key context) cache) w cache overrides
      flag org_id context
