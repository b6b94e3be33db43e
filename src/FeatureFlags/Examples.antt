-- ===== src/FeatureFlags/Examples.antt =====
-- A flag that half of the organizations see.
use open_langgraph_platform.Prelude.{
  ◌≡◌, refl, ◌⊎◌, true, false, ◌&&◌, ◌||◌, any, none, some, [], ◌∷◌, codes, starts_with, arith,
  length,
}
use open_langgraph_platform.Value.{bool, end}
use open_langgraph_platform.FeatureFlags.{
  FeatureFlag, FlagEvaluationContext, FlagEvaluationResult, PercentageRolloutConfig, boolean,
  active, org_hash, below,
}
use open_langgraph_platform.FeatureFlags.Evaluation.{
  World, either, check_rollout, check_strategy, in_bucket, build_eval_cache_key, fresh_result,
}
use open_langgraph_platform.FeatureFlags.Service.{Service, Redis, FeatureFlagUpdate}
use open_langgraph_platform.FeatureFlags.Enabled.{enabled_iff}
use open_langgraph_platform.FeatureFlags.Formula.{is_current, stands, for_user, for_org, rolled_out}
use open_langgraph_platform.FeatureFlags.Rollout.{widened, check_rollout-widened}

-- the hash is the length of the text
abbrev world : World
world = record { now = 5; md5 = λ t. length t; draw = λ _. false; show = λ _. codes "50.0" }

abbrev half : PercentageRolloutConfig
half = record {
  enabled = true;
  percentage = record { numerator = 50; denominator = 1 };
  strategy = org_hash;
  seed = none;
}

abbrev flag : FeatureFlag
flag = record {
  base = record {
    key = codes "beta";
    name = codes "Beta";
    description = none;
    value_type = boolean;
    default_value = bool false;
    enabled_value = bool true;
    tags = [];
    metadata = end;
  };
  flag_id = codes "f";
  org_id = codes "o";
  enabled = true;
  is_killswitch = false;
  status = active;
  rollout = half;
  targeting = none;
  expires_at = none;
  created_at = 0;
  updated_at = 0;
  created_by = none;
  version = 1;
}

abbrev context : FlagEvaluationContext
context = record { user_id = some (codes "u"); org_id = none; attributes = end }

enabled_iff_example :
    let r = fresh_result world [] flag (codes "o") context in
    let stand = stands world.now flag.flag_id (codes "o") in
    (r.enabled ≡ (
      is_current world.now flag.status flag.expires_at
      && (any (λ o. stand o && for_user context.user_id o) []
          || any (λ o. stand o && for_org o) []
          || (flag.enabled
              && rolled_out world flag.rollout context.user_id
                  (either context.org_id (codes "o"))
                  flag.base.key))))
    × ((r.enabled ≡ true) ⊎ (r.value ≡ flag.base.default_value))
enabled_iff_example = enabled_iff world [] flag (codes "o") context

in_half : check_rollout world half (some (codes "u")) (codes "o") (codes "beta") ≡ true
unfolding check_rollout check_strategy in_bucket below
in_half = refl

check_rollout-widened_example :
    check_rollout world (widened half 80) (some (codes "u")) (codes "o") (codes "beta") ≡ true
check_rollout-widened_example =
    check_rollout-widened world half 80 (some (codes "u")) (codes "o") (codes "beta") refl
      (omega arith) in_half

abbrev service : Service
service = record { flags = flag ∷ []; overrides = []; changes = []; cache = [] }

abbrev turned_off : FeatureFlagUpdate
turned_off = record {
  name = none;
  description = none;
  default_value = none;
  enabled_value = none;
  enabled = some false;
  is_killswitch = none;
  rollout = none;
  targeting = none;
  tags = none;
  expires_at = none;
  status = none;
}

abbrev redis : Redis
redis = record { glob = starts_with; reached = λ key. true }

abbrev seen_on : FlagEvaluationResult
seen_on = record {
  flag_key = codes "beta";
  value = bool true;
  enabled = true;
  source = codes "flag";
  reason = codes "Flag is enabled";
  flag_id = codes "f";
  override_id = none;
  evaluated_at = 5;
}

abbrev warm : Service
warm = record service {
  cache = (build_eval_cache_key (codes "o") (codes "beta") context, seen_on) ∷ [];
}
