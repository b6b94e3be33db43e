-- ===== src/FeatureFlags/Formula.antt =====
-- services/feature_flag_service.py: the parts of the formula for a flag that is on, and the code that decides each.
use open_langgraph_platform.Prelude.{
  ℕ, ◌*◌, ◌%◌, ◌≡◌, refl, Bool, true, false, ◌&&◌, ◌||◌, not, Option, none, some, List, [], ◌∷◌,
  ◌++◌, Text, codes, text_eq, is_some, Bool-cases, ◌∙◌, leb, ltb, any, arith, or_else,
  if◌then◌else◌, sym, ap,
}
use open_langgraph_platform.FeatureFlags.{
  FeatureFlag, FeatureFlagOverride, FlagStatus, active, disabled, archived, RolloutStrategy, random,
  user_hash, org_hash, OverrideScope, global, org, user, PercentageRolloutConfig, is_given, below,
}
use open_langgraph_platform.FeatureFlags.Evaluation.{
  World, is_active_status, has_expired, get_active_override, is_active_override, check_rollout,
  check_strategy, in_bucket, seeded, scope_eq, targets, is_live,
}

-- active, and not past its time
abbrev pub is_current : ℕ → FlagStatus → Option ℕ → Bool
is_current now active none = true
is_current now active (some t) = leb now t
is_current now status expires_at = false

-- an override of the flag in the organization that is switched on and not past its time
abbrev pub stands : ℕ → Text → Text → FeatureFlagOverride → Bool
stands now flag_id org_id o =
    text_eq o.flag_id flag_id
    && text_eq o.org_id org_id
    && o.enabled
    && elim o.expires_at [ none ↦ true | some t ↦ ltb now t ]

-- for this user, if there is one
abbrev pub for_user : Option Text → FeatureFlagOverride → Bool
for_user (some (c ∷ t)) o = elim o.scope [
  | user ↦ elim o.target_id [ none ↦ false | some r ↦ text_eq r (c ∷ t) ]
  | _ ↦ false
]
for_user user_id o = false

-- for the whole organization
abbrev pub for_org : FeatureFlagOverride → Bool
for_org o = elim o.scope [ org ↦ elim o.target_id [ none ↦ true | some r ↦ false ] | _ ↦ false ]

-- Whether the number of a text, from 0 to 99, is below the percentage.
abbrev pub drawn_in : World → PercentageRolloutConfig → Text → Bool
drawn_in w r t =
    ltb ((w.md5 (seeded r.seed t) % 100) * r.percentage.denominator) r.percentage.numerator

-- the share of the roll-out
abbrev pub takes :
    World → PercentageRolloutConfig → RolloutStrategy → Option Text → Text → Text → Bool
takes w r random user_id org_id key = w.draw r.percentage
takes w r user_hash (some (c ∷ t)) org_id key = drawn_in w r (key ++ (codes ":" ++ (c ∷ t)))
takes w r user_hash user_id org_id key = false
takes w r org_hash user_id org_id key = drawn_in w r (key ++ (codes ":" ++ org_id))

-- No roll-out, or one of 100 percent and more, or one above 0 that takes the context in.
abbrev pub rolled_out : World → PercentageRolloutConfig → Option Text → Text → Text → Bool
rolled_out w r user_id org_id key =
    not r.enabled
    || leb (100 * r.percentage.denominator) r.percentage.numerator
    || ltb 0 r.percentage.numerator && takes w r r.strategy user_id org_id key

pub current_lem :
    (status : FlagStatus) (expires_at : Option ℕ) (now : ℕ)
    → (is_active_status status && not (has_expired expires_at now))
      ≡ is_current now status expires_at
unfolding is_active_status has_expired
current_lem active none now = refl
current_lem active (some t) now = ground arith
current_lem disabled expires_at now = refl
current_lem archived expires_at now = refl

pub any-get_active_override :
    (rows : List FeatureFlagOverride) (flag_id org_id : Text) (scope : OverrideScope)
    (target_id : Option Text) (now : ℕ)
    → is_some (get_active_override rows flag_id org_id scope target_id now)
      ≡ any (is_active_override flag_id org_id scope target_id now) rows
unfolding get_active_override
any-get_active_override [] flag_id org_id scope target_id now = refl
any-get_active_override (o ∷ rows) flag_id org_id scope target_id now =
    ground (arith, any-get_active_override rows flag_id org_id scope target_id now)

by_strategy :
    (w : World) (r : PercentageRolloutConfig) (strategy : RolloutStrategy) (user_id : Option Text)
    (org_id key : Text)
    → elim strategy [
      | random ↦ w.draw r.percentage
      | user_hash ↦
          if is_given user_id
          then in_bucket w r (key ++ (codes ":" ++ or_else user_id []))
          else false
      | org_hash ↦ in_bucket w r (key ++ (codes ":" ++ org_id))
    ]
      ≡ takes w r strategy user_id org_id key
unfolding in_bucket is_given below
by_strategy w r random user_id org_id key = refl
by_strategy w r user_hash none org_id key = refl
by_strategy w r user_hash (some []) org_id key = refl
by_strategy w r user_hash (some (c ∷ t)) org_id key = refl
by_strategy w r org_hash user_id org_id key = refl

pub left_out_lem :
    (w : World) (r : PercentageRolloutConfig) (user_id : Option Text) (org_id key : Text)
    → (r.enabled
        && not (leb (100 * r.percentage.denominator) r.percentage.numerator)
        && not (check_rollout w r user_id org_id key))
      ≡ not (rolled_out w r user_id org_id key)
unfolding check_rollout check_strategy below
left_out_lem w r user_id org_id key = ground (
  arith,
  by_strategy w r r.strategy user_id org_id key,
  Bool-cases r.enabled,
  Bool-cases (leb (100 * r.percentage.denominator) r.percentage.numerator),
  Bool-cases (ltb 0 r.percentage.numerator),
)

targets_user :
    (o : Option Text) (c : ℕ) (t : Text)
    → targets (some (c ∷ t)) o ≡ elim o [ none ↦ false | some r ↦ text_eq r (c ∷ t) ]
unfolding targets is_given
targets_user none c t = refl
targets_user (some r) c t = refl

scope_user :
    (scope : OverrideScope) (o : Option Text) (c : ℕ) (t : Text)
    → (scope_eq scope user && targets (some (c ∷ t)) o)
      ≡ elim scope [ user ↦ elim o [ none ↦ false | some r ↦ text_eq r (c ∷ t) ] | _ ↦ false ]
unfolding scope_eq
scope_user global o c t = refl
scope_user org o c t = refl
scope_user user o c t = targets_user o c t

scope_org :
    (scope : OverrideScope) (o : Option Text)
    → (scope_eq scope org && targets none o)
      ≡ elim scope [ org ↦ elim o [ none ↦ true | some r ↦ false ] | _ ↦ false ]
unfolding scope_eq targets is_given
scope_org global o = refl
scope_org org none = refl
scope_org org (some r) = refl
scope_org user o = refl

shuffle :
    (a b scope e l t : Bool)
    → (a && b && scope && e && l && t) ≡ ((a && b && e && l) && (scope && t))
shuffle a b scope e l t =
    ground (
      arith,
      Bool-cases a,
      Bool-cases b,
      Bool-cases scope,
      Bool-cases e,
      Bool-cases l,
      Bool-cases t,
    )

live_lem : (now : ℕ) (o : Option ℕ) → is_live now o ≡ elim o [ none ↦ true | some t ↦ ltb now t ]
unfolding is_live
live_lem now none = refl
live_lem now (some t) = refl

user_covers :
    (o : FeatureFlagOverride) (flag_id org_id : Text) (c : ℕ) (t : Text) (now : ℕ)
    → is_active_override flag_id org_id user (some (c ∷ t)) now o
      ≡ (stands now flag_id org_id o && for_user (some (c ∷ t)) o)
unfolding is_active_override
user_covers o flag_id org_id c t now =
    shuffle (text_eq o.flag_id flag_id) (text_eq o.org_id org_id) (scope_eq o.scope user) o.enabled
      (is_live now o.expires_at) (targets (some (c ∷ t)) o.target_id)
    ∙ ap
        (λ b.
          (text_eq o.flag_id flag_id
            && text_eq o.org_id org_id
            && o.enabled
            && is_live now o.expires_at)
          && b)
        (scope_user o.scope o.target_id c t)
    ∙ ap
        (λ b.
          (text_eq o.flag_id flag_id && text_eq o.org_id org_id && o.enabled && b)
          && for_user (some (c ∷ t)) o)
        (live_lem now o.expires_at)

pub org_covers :
    (o : FeatureFlagOverride) (flag_id org_id : Text) (now : ℕ)
    → is_active_override flag_id org_id org none now o ≡ (stands now flag_id org_id o && for_org o)
unfolding is_active_override
org_covers o flag_id org_id now =
    shuffle (text_eq o.flag_id flag_id) (text_eq o.org_id org_id) (scope_eq o.scope org) o.enabled
      (is_live now o.expires_at) (targets none o.target_id)
    ∙ ap
        (λ b.
          (text_eq o.flag_id flag_id
            && text_eq o.org_id org_id
            && o.enabled
            && is_live now o.expires_at)
          && b)
        (scope_org o.scope o.target_id)
    ∙ ap
        (λ b. (text_eq o.flag_id flag_id && text_eq o.org_id org_id && o.enabled && b) && for_org o)
        (live_lem now o.expires_at)

pub any-same :
    (p q : FeatureFlagOverride → Bool) (rows : List FeatureFlagOverride)
    → ((o : FeatureFlagOverride) → p o ≡ q o)
    → any p rows ≡ any q rows
any-same p q [] f = refl
any-same p q (o ∷ rows) f = rw (f o, any-same p q rows f) refl

any_none :
    {A : Type 0} (rows : List A) (p : A → Bool) → ((x : A) → p x ≡ false) → any p rows ≡ false
any_none [] p f = refl
any_none (x ∷ rows) p f = rw (f x, any_none rows p f) refl

pub user_override_lem :
    (user_id : Option Text) (w : World) (rows : List FeatureFlagOverride) (flag : FeatureFlag)
    (org_id : Text)
    → is_some (
        if is_given user_id
        then get_active_override rows flag.flag_id org_id user user_id w.now
        else none)
      ≡ any (λ o. stands w.now flag.flag_id org_id o && for_user user_id o) rows
unfolding is_given
user_override_lem none w rows flag org_id = sym (any_none rows _ (λ o. ground arith))
user_override_lem (some []) w rows flag org_id = sym (any_none rows _ (λ o. ground arith))
user_override_lem (some (c ∷ t)) w rows flag org_id =
    any-get_active_override rows flag.flag_id org_id user (some (c ∷ t)) w.now
    ∙ any-same _ _ rows (λ o. user_covers o flag.flag_id org_id c t w.now)

pub four :
    {a a' b b' c c' d d' : Bool}
    → a ≡ a'
    → b ≡ b'
    → c ≡ c'
    → d ≡ d'
    → (e : Bool) → (a && (b || c || (e && d))) ≡ (a' && (b' || c' || (e && d')))
four p q r s e = rw (p, q, r, s) refl

pub twice_negated : (b : Bool) → not (not b) ≡ b
twice_negated true = refl
twice_negated false = refl
