-- ===== src/FeatureFlags/Enabled.antt =====
-- When a flag is on.
use open_langgraph_platform.Prelude.{
  ◌≡◌, refl, Bool, true, false, ◌&&◌, ◌||◌, not, Option, none, some, List, Text, is_some,
  Bool-cases, inl, inr, ◌⊎◌, ◌∙◌, any, ap,
}
use open_langgraph_platform.FeatureFlags.{
  FeatureFlag, FeatureFlagOverride, FlagEvaluationContext, FlagEvaluationResult, org,
}
use open_langgraph_platform.FeatureFlags.Evaluation.{
  World, counts, user_override, org_override, override_result, own_result, left_out, switched,
  by_overrides, overridden, switched_off, fresh_result, either,
}
use open_langgraph_platform.FeatureFlags.Formula.{
  is_current, stands, for_user, for_org, rolled_out, current_lem, any-get_active_override,
  left_out_lem, org_covers, any-same, user_override_lem, four, twice_negated,
}

-- the flag's own value for the context
abbrev admits : World → FeatureFlag → Text → FlagEvaluationContext → Bool
admits w flag org_id context = flag.enabled && not (left_out w flag org_id context)

-- What a result says of the flag: on with some value, or off with the default value.
record Says (flag : FeatureFlag) (r : FlagEvaluationResult) (on : Bool) : Type 0 where
  enabled : r.enabled ≡ on
  off : on ≡ false → r.value ≡ flag.base.default_value

switched-Says :
    (w : World) (flag : FeatureFlag) (org_id : Text) (context : FlagEvaluationContext)
    → Says flag (switched w flag org_id context) (admits w flag org_id context)
unfolding switched own_result
switched-Says w flag org_id context = elim (Bool-cases flag.enabled) [
  | inr p ↦ simp p (record { enabled = refl; off = λ _. refl })
  | inl p ↦ elim (Bool-cases (left_out w flag org_id context)) [
    | inl q ↦ simp (p, q) (record { enabled = refl; off = λ _. refl })
    | inr q ↦ simp (p, q) (record { enabled = refl; off = λ h. cc })
  ]
]

value_or_on :
    {flag : FeatureFlag} {r : FlagEvaluationResult} {on : Bool}
    → Says flag r on
    → (r.enabled ≡ true) ⊎ (r.value ≡ flag.base.default_value)
value_or_on {on} s = elim (Bool-cases on) [ inl p ↦ inl (s.enabled ∙ p) | inr p ↦ inr (s.off p) ]

by_overrides-Says :
    (o p : Option FeatureFlagOverride) (w : World) (flag : FeatureFlag) (org_id : Text)
    (context : FlagEvaluationContext)
    → Says flag
        (by_overrides o p w flag org_id context)
        (is_some o || is_some p || admits w flag org_id context)
unfolding by_overrides override_result
by_overrides-Says (some o) p w flag org_id context = record { enabled = refl; off = λ h. cc }
by_overrides-Says none (some o) w flag org_id context = record { enabled = refl; off = λ h. cc }
by_overrides-Says none none w flag org_id context = switched-Says w flag org_id context

enabled_plainly :
    (w : World) (overrides : List FeatureFlagOverride) (flag : FeatureFlag) (org_id : Text)
    (context : FlagEvaluationContext)
    → let r = fresh_result w overrides flag org_id context in
      (r.enabled ≡ (
        counts w flag
        && (is_some (user_override w overrides flag org_id context)
            || is_some (org_override w overrides flag org_id)
            || (flag.enabled && not (left_out w flag org_id context)))))
      × ((r.enabled ≡ true) ⊎ (r.value ≡ flag.base.default_value))
unfolding fresh_result overridden switched_off own_result
enabled_plainly w overrides flag org_id context =
    let (u, o) : Option FeatureFlagOverride × Option FeatureFlagOverride =
      (user_override w overrides flag org_id context, org_override w overrides flag org_id) in
    let s = by_overrides-Says u o w flag org_id context in
    elim (Bool-cases (counts w flag)) [
      | inr p ↦ rw p (refl, inr refl)
      | inl p ↦ rw p (s.enabled, value_or_on s)
    ]

formula :
    (w : World) (overrides : List FeatureFlagOverride) (flag : FeatureFlag) (org_id : Text)
    (context : FlagEvaluationContext)
    → (counts w flag
        && (is_some (user_override w overrides flag org_id context)
            || is_some (org_override w overrides flag org_id)
            || (flag.enabled && not (left_out w flag org_id context))))
      ≡ (is_current w.now flag.status flag.expires_at
          && (any (λ o. stands w.now flag.flag_id org_id o && for_user context.user_id o) overrides
              || any (λ o. stands w.now flag.flag_id org_id o && for_org o) overrides
              || (flag.enabled
                  && rolled_out w flag.rollout context.user_id
                      (either context.org_id org_id)
                      flag.base.key)))
unfolding counts user_override org_override left_out
formula w overrides flag org_id context =
    let u = user_override_lem context.user_id w overrides flag org_id in
    let g =
      any-get_active_override overrides flag.flag_id org_id org none w.now
      ∙ any-same _ _ overrides (λ o. org_covers o flag.flag_id org_id w.now) in
    let c = current_lem flag.status flag.expires_at w.now in
    let l =
      left_out_lem w flag.rollout context.user_id (either context.org_id org_id) flag.base.key in
    four c u g (ap not l ∙ twice_negated _) flag.enabled

-- Without the cache, a flag is on for a context exactly when it is active and not past its time, and
-- either some override of it in the organization, switched on and not past its time, is for the user or
-- for the whole organization, or the flag is enabled and is rolled out to the context: it has no
-- roll-out, or one of at least 100 percent, or one above 0 that takes the context in by its strategy.
-- Where it is off, the value is the flag's default value. The targeting rules of the flag are not in
-- the formula: no evaluation reads them.
pub enabled_iff :
    (w : World) (overrides : List FeatureFlagOverride) (flag : FeatureFlag) (org_id : Text)
    (context : FlagEvaluationContext)
    → let r = fresh_result w overrides flag org_id context in
      let stand = stands w.now flag.flag_id org_id in
      (r.enabled ≡ (
        is_current w.now flag.status flag.expires_at
        && (any (λ o. stand o && for_user context.user_id o) overrides
            || any (λ o. stand o && for_org o) overrides
            || (flag.enabled
                && rolled_out w flag.rollout context.user_id
                    (either context.org_id org_id)
                    flag.base.key))))
      × ((r.enabled ≡ true) ⊎ (r.value ≡ flag.base.default_value))
enabled_iff w overrides flag org_id context =
    let plain = enabled_plainly w overrides flag org_id context in
    (plain.0 ∙ formula w overrides flag org_id context, plain.1)
