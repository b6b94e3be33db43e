-- ===== src/FeatureFlags/Rollout.antt =====
-- A wider roll-out keeps whom it has.
use open_langgraph_platform.Prelude.{
  ℕ, ◌*◌, ◌≤◌, ◌≡◌, refl, Bool, true, false, Option, Text, ltb, leb, arith, Bool-cases, inl, inr,
  ◌++◌, codes, or_else, [],
}
use open_langgraph_platform.FeatureFlags.{
  RolloutStrategy, random, user_hash, org_hash, below, PercentageRolloutConfig, is_given,
}
use open_langgraph_platform.FeatureFlags.Evaluation.{
  World, in_bucket, check_strategy, check_rollout,
}

abbrev pub is_random : RolloutStrategy → Bool
is_random random = true
is_random _ = false

-- the configuration with another percentage
abbrev pub widened : PercentageRolloutConfig → ℕ → PercentageRolloutConfig
widened r n = let p = r.percentage in record r { percentage = record p { numerator = n } }

in_bucket-widened :
    (w : World) (r : PercentageRolloutConfig) (n : ℕ) (hash_input : Text)
    → r.percentage.numerator ≤ n
    → in_bucket w r hash_input ≡ true
    → in_bucket w (widened r n) hash_input ≡ true
unfolding in_bucket below
in_bucket-widened w r n hash_input le h = ground (arith, le, h)

check_strategy-widened :
    (strategy : RolloutStrategy) (w : World) (r : PercentageRolloutConfig) (n : ℕ)
    (user_id : Option Text) (org_id flag_key : Text)
    → is_random strategy ≡ false
    → r.percentage.numerator ≤ n
    → check_strategy w (record r { strategy = strategy }) user_id org_id flag_key ≡ true
    → check_strategy w (widened (record r { strategy = strategy }) n) user_id org_id flag_key ≡ true
unfolding check_strategy
check_strategy-widened random w r n user_id org_id flag_key fixed le h = cc
check_strategy-widened user_hash w r n user_id org_id flag_key fixed le h =
    elim (Bool-cases (is_given user_id)) [
      | inl p ↦ rw p (
          in_bucket-widened w (record r { strategy = user_hash }) n
            (flag_key ++ (codes ":" ++ or_else user_id [])) le (rw p at h))
      | inr p ↦ cc (rw p at h)
    ]
check_strategy-widened org_hash w r n user_id org_id flag_key fixed le h =
    in_bucket-widened w (record r { strategy = org_hash }) n (flag_key ++ (codes ":" ++ org_id)) le
      h

-- A roll-out by hash is stable: whoever is in it at one percentage is in it at every higher one, whatever
-- the hash is, as long as the flag's key, the strategy and the seed stay. Both percentages are written
-- with the same denominator. A roll-out at random has no such promise.
pub check_rollout-widened :
    (w : World) (r : PercentageRolloutConfig) (n : ℕ) (user_id : Option Text)
    (org_id flag_key : Text)
    → is_random r.strategy ≡ false
    → r.percentage.numerator ≤ n
    → check_rollout w r user_id org_id flag_key ≡ true
    → check_rollout w (widened r n) user_id org_id flag_key ≡ true
unfolding check_rollout below
check_rollout-widened w r n user_id org_id flag_key fixed le h =
    elim (Bool-cases (leb (100 * r.percentage.denominator) n)) [
      | inl p ↦ rw p refl
      | inr p ↦
          let partly : leb (100 * r.percentage.denominator) r.percentage.numerator ≡ false =
            ground (arith, p, le) in
          let some_one : ltb (0 * r.percentage.denominator) r.percentage.numerator ≡ true =
            ground (arith, rw partly at h) in
          let more : ltb (0 * r.percentage.denominator) n ≡ true = ground (arith, some_one, le) in
          rw (p, more)
            (check_strategy-widened r.strategy w r n user_id org_id flag_key fixed le
              (rw (partly, some_one) at h))
    ]
