-- ===== src/RateLimitRules/Resolve.antt =====
-- `resolve_rule` and `_get_active_rules`: the rule of highest priority that a request matches.
use open_langgraph_platform.Prelude.{
  ◌+◌, ℕ, ◌≤◌, ◌<◌, ◌≡◌, refl, ◌⊎◌, Bool, true, false, ◌&&◌, Option, none, some, List, [], ◌∷◌,
  ◌++◌, Text, codes, if◌then◌else◌, or_else, ltb, leb, filter, arith, Bool-cases, inl, inr, All,
  Occurs, ap, ◌∙◌,
}
use open_langgraph_platform.Dict.{lookup, insert}
use open_langgraph_platform.RateLimitRules.{RateLimitRule, RateLimitRuleMatch, from_rule}
use open_langgraph_platform.RateLimitRules.Service.{
  Table, Caches, Reply, ok, raise, validate_all, of_org, active_key, rule_matches,
}

-- the `where` of the query
unfoldable pub is_active : Text → ℕ → RateLimitRule → Bool
is_active org_id now r =
    of_org org_id r && r.enabled && elim r.expires_at [ none ↦ true | some t ↦ ltb now t ]

-- `ORDER BY priority DESC`
unfoldable pub insert_by_priority : RateLimitRule → List RateLimitRule → List RateLimitRule
insert_by_priority r [] = r ∷ []
insert_by_priority r (s ∷ rules) =
    if leb s.base.priority r.base.priority then r ∷ s ∷ rules else s ∷ insert_by_priority r rules

unfoldable pub order_by_priority : List RateLimitRule → List RateLimitRule
unfolding insert_by_priority
order_by_priority [] = []
order_by_priority (r ∷ rules) = insert_by_priority r (order_by_priority rules)

unfoldable pub query_active : Table → Text → ℕ → List RateLimitRule
unfolding is_active order_by_priority
query_active rows org_id now = order_by_priority (filter (is_active org_id now) rows)

-- CACHE_TTL_RULES, in seconds
abbrev pub cache_ttl_rules : ℕ
cache_ttl_rules = 300

-- what the cache still holds
unfoldable pub unexpired {ℓ} : {A : Type ℓ} → ℕ → Option (ℕ × A) → Option A
unexpired now none = none
unexpired now (some (gone, a)) = if ltb now gone then some a else none

-- Nothing is cached when a row does not validate.
unfoldable pub validated :
    Reply (List RateLimitRule) → Caches → Text → ℕ → Caches × Reply (List RateLimitRule)
validated (raise e) c org_id now = (c, raise e)
validated (ok rules) c org_id now = (
  record c {
    active_rules = insert (active_key org_id) (now + cache_ttl_rules, rules) c.active_rules;
  },
  ok rules,
)

unfoldable pub queried : Table → Caches → Text → ℕ → Caches × Reply (List RateLimitRule)
unfolding query_active validate_all validated
queried rows c org_id now = validated (validate_all (query_active rows org_id now)) c org_id now

-- An empty list in the cache reads as a miss.
unfoldable pub from_cache :
    Option (List RateLimitRule) → Table → Caches → Text → ℕ → Caches × Reply (List RateLimitRule)
unfolding queried
from_cache (some (r ∷ rules)) rows c org_id now = (c, ok (r ∷ rules))
from_cache _ rows c org_id now = queried rows c org_id now

unfoldable pub get_active_rules : Table → Caches → Text → ℕ → Caches × Reply (List RateLimitRule)
unfolding from_cache lookup unexpired
get_active_rules rows c org_id now =
    from_cache (unexpired now (lookup (active_key org_id) c.active_rules)) rows c org_id now

-- The loop: the rule that is matched so far carries `highest_priority`, which starts below all.
pub record Request : Type 0 where
  pub path : Text
  pub user_id : Option Text
  pub api_key_id : Option Text

abbrev pub applies : Request → RateLimitRule → Bool
applies q r = rule_matches r q.path q.user_id q.api_key_id

beats : RateLimitRule → Option RateLimitRule → Bool
beats r none = true
beats r (some m) = ltb m.base.priority r.base.priority

unfoldable pub best_match :
    Request → List RateLimitRule → Option RateLimitRule → Option RateLimitRule
unfolding rule_matches beats
best_match q [] matched = matched
best_match q (r ∷ rules) matched =
    best_match q rules (if applies q r && beats r matched then some r else matched)

unfoldable pub resolve_key : Text → Request → Text
resolve_key org_id q =
    codes "rl_rules:resolve:"
    ++ (org_id
        ++ (codes ":"
            ++ (q.path
                ++ (codes ":"
                    ++ (or_else q.user_id [] ++ (codes ":" ++ or_else q.api_key_id []))))))

unfoldable pub settle :
    Option RateLimitRule → Text → Request → Caches → ℕ → Caches × Reply (Option RateLimitRuleMatch)
unfolding resolve_key from_rule
settle none org_id q c now = (c, ok none)
settle (some r) org_id q c now =
    let m = from_rule r in
    (
      record c { resolved = insert (resolve_key org_id q) (now + cache_ttl_rules, m) c.resolved },
      ok (some m),
    )

-- behind the list of rules
unfoldable pub chosen :
    Caches × Reply (List RateLimitRule)
    → Text
    → Request
    → ℕ
    → Caches × Reply (Option RateLimitRuleMatch)
unfolding best_match settle
chosen (c, raise e) org_id q now = (c, raise e)
chosen (c, ok rules) org_id q now = settle (best_match q rules none) org_id q c now

unfoldable pub answered :
    Option RateLimitRuleMatch
    → Table
    → Caches
    → Text
    → Request
    → ℕ
    → Caches × Reply (Option RateLimitRuleMatch)
unfolding get_active_rules chosen
answered (some m) rows c org_id q now = (c, ok (some m))
answered none rows c org_id q now = chosen (get_active_rules rows c org_id now) org_id q now

unfoldable pub resolve_rule :
    Table → Caches → Text → Request → ℕ → Caches × Reply (Option RateLimitRuleMatch)
unfolding answered resolve_key lookup unexpired
resolve_rule rows c org_id q now =
    answered (unexpired now (lookup (resolve_key org_id q) c.resolved)) rows c org_id q now

-- What a result of the loop is: the request matches it, and no rule that it matches ranks higher.
pub data IsBest (q : Request) (rules : List RateLimitRule) : Option RateLimitRule → Type 0 where
  no_rule : All (λ r. applies q r ≡ false) rules → IsBest q rules none
  best :
      {m : RateLimitRule}
      → Occurs m rules
      → applies q m ≡ true
      → All (λ r. applies q r ≡ true → r.base.priority ≤ m.base.priority) rules
      → IsBest q rules (some m)

abbrev BoundedBy : Request → RateLimitRule → RateLimitRule → Type 0
BoundedBy q m r = applies q r ≡ true → r.base.priority ≤ m.base.priority

-- The loop from a rule that is matched already.
record Better (q : Request) (m : RateLimitRule) (rules : List RateLimitRule) : Type 0 where
  rule : RateLimitRule
  result : best_match q rules (some m) ≡ some rule
  no_worse : m.base.priority ≤ rule.base.priority
  origin : (rule ≡ m) ⊎ (Occurs rule rules × (applies q rule ≡ true))
  above : All (BoundedBy q rule) rules

best_match-Better :
    (q : Request) (m : RateLimitRule) (rules : List RateLimitRule) → Better q m rules
unfolding best_match beats
best_match-Better q m [] = record {
  rule = m;
  result = refl;
  no_worse = omega arith;
  origin = inl refl;
  above = tt;
}
best_match-Better q m (r ∷ rules) =
    elim (Bool-cases (applies q r && ltb m.base.priority r.base.priority)) [
      | inl p ↦
          let b = best_match-Better q r rules in
          let higher : m.base.priority < r.base.priority = ground (arith, p) in
          let hit : applies q r ≡ true = ground (arith, p) in
          let low : m.base.priority ≤ b.rule.base.priority = omega (arith, higher, b.no_worse) in
          record {
            rule = b.rule;
            result = rw p b.result;
            no_worse = low;
            origin = elim b.origin [
              | inl e ↦ inr (inl e, ap (applies q) e ∙ hit)
              | inr (o, h) ↦ inr (inr o, h)
            ];
            above = (λ _. b.no_worse, b.above);
          }
      | inr p ↦
          let b = best_match-Better q m rules in
          record {
            rule = b.rule;
            result = rw p b.result;
            no_worse = b.no_worse;
            origin = elim b.origin [ inl e ↦ inl e | inr (o, h) ↦ inr (inr o, h) ];
            above = (λ h. ground (arith, p, h, b.no_worse), b.above);
          }
    ]

missed :
    (q : Request) (r : RateLimitRule) (rules : List RateLimitRule) (o : Option RateLimitRule)
    → applies q r ≡ false
    → IsBest q rules o
    → IsBest q (r ∷ rules) o
missed q r rules none p (no_rule a) = no_rule (p, a)
missed q r rules (some m) p (best o h a) = best (inr o) h (λ t. cc (t, p), a)

pub best_match-IsBest :
    (q : Request) (rules : List RateLimitRule) → IsBest q rules (best_match q rules none)
unfolding best_match beats
best_match-IsBest q [] = no_rule tt
best_match-IsBest q (r ∷ rules) = elim (Bool-cases (applies q r)) [
  | inl p ↦
      let b = best_match-Better q r rules in
      let hit : applies q b.rule ≡ true = elim b.origin [
        | inl e ↦ ap (applies q) e ∙ p
        | inr (o, h) ↦ h
      ] in
      let place : Occurs b.rule (r ∷ rules) = elim b.origin [
        | inl e ↦ inl e
        | inr (o, h) ↦ inr o
      ] in
      rw (p, b.result) (best place hit (λ _. b.no_worse, b.above))
  | inr p ↦ rw p (missed q r rules (best_match q rules none) p (best_match-IsBest q rules))
]
