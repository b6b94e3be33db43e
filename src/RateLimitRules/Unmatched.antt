-- ===== src/RateLimitRules/Unmatched.antt =====
-- What `resolve_rule` answers over time, from empty caches.
use open_langgraph_platform.Prelude.{
  ℕ, ◌≡◌, refl, Bool, true, false, Option, none, some, List, [], ◌∷◌, Text, text_eq, ltb,
  Bool-cases, inl, inr, All,
}
use open_langgraph_platform.Dict.{Dict, lookup, insert, remove}
use open_langgraph_platform.RateLimitRules.{RateLimitRule, RateLimitRuleMatch}
use open_langgraph_platform.RateLimitRules.Service.{
  Table, Caches, active_key, invalidate_rules_cache, Reply, ok, model_validate, validate_all,
}
use open_langgraph_platform.RateLimitRules.Resolve.{
  Request, query_active, queried, validated, from_cache, get_active_rules, best_match, resolve_key,
  settle, unexpired, chosen, answered, resolve_rule,
}

-- A request that is resolved on the table as it then is, or a change of an organization's rules.
pub data Call : Type 0 where
  resolves : Table → Text → Request → ℕ → Call
  changes : Text → Call

-- the caches after the calls, and the answers
unfoldable pub run : Caches → List Call → Caches × List (Reply (Option RateLimitRuleMatch))
unfolding resolve_rule invalidate_rules_cache
run c [] = (c, [])
run c (resolves rows org_id q now ∷ calls) =
    let (c', answer) = resolve_rule rows c org_id q now in
    let (c'', answers) = run c' calls in (c'', answer ∷ answers)
run c (changes org_id ∷ calls) = run (invalidate_rules_cache c org_id) calls

abbrev pub empty_caches : Caches
empty_caches = record { resolved = []; active_rules = [] }

abbrev pub is_match : Reply (Option RateLimitRuleMatch) → Bool
is_match (ok (some m)) = true
is_match answer = false

-- No answer and only empty lists of rules are cached.
record IsBare (c : Caches) : Type 0 where
  no_answers : c.resolved ≡ []
  no_rules : All {A = Text × (ℕ × List RateLimitRule)} (λ e. e.1.1 ≡ []) c.active_rules

bare-insert :
    (k : Text) (gone : ℕ) (d : Dict (ℕ × List RateLimitRule))
    → All {A = Text × (ℕ × List RateLimitRule)} (λ e. e.1.1 ≡ []) d
    → All {A = Text × (ℕ × List RateLimitRule)} (λ e. e.1.1 ≡ []) (insert k (gone, []) d)
unfolding insert
bare-insert k gone [] h = (refl, tt)
bare-insert k gone ((j, v) ∷ d) (e, h) = elim (Bool-cases (text_eq j k)) [
  | inl p ↦ rw p (refl, h)
  | inr p ↦ rw p (e, bare-insert k gone d h)
]

bare-remove :
    (k : Text) (d : Dict (ℕ × List RateLimitRule))
    → All {A = Text × (ℕ × List RateLimitRule)} (λ e. e.1.1 ≡ []) d
    → All {A = Text × (ℕ × List RateLimitRule)} (λ e. e.1.1 ≡ []) (remove k d)
unfolding remove
bare-remove k [] h = tt
bare-remove k ((j, v) ∷ d) (e, h) = elim (Bool-cases (text_eq j k)) [
  | inl p ↦ rw p (bare-remove k d h)
  | inr p ↦ rw p (e, bare-remove k d h)
]

-- What a list from bare caches is: none, or an empty one.
IsEmptyList : Option (List RateLimitRule) → Type 0
IsEmptyList none = Unit
IsEmptyList (some rules) = rules ≡ []

bare-lookup :
    (k : Text) (now : ℕ) (d : Dict (ℕ × List RateLimitRule))
    → All {A = Text × (ℕ × List RateLimitRule)} (λ e. e.1.1 ≡ []) d
    → IsEmptyList (unexpired now (lookup k d))
unfolding lookup unexpired IsEmptyList
bare-lookup k now [] h = tt
bare-lookup k now ((j, (gone, rules)) ∷ d) (e, h) = elim (Bool-cases (text_eq j k)) [
  | inr p ↦ rw p (bare-lookup k now d h)
  | inl p ↦ elim (Bool-cases (ltb now gone)) [ inl q ↦ rw (p, q) e | inr q ↦ rw (p, q) tt ]
]

-- What a step leaves: bare caches, and no match.
abbrev Unmatched : Caches × Reply (Option RateLimitRuleMatch) → Type 0
Unmatched (c, answer) = IsBare c × (is_match answer ≡ false)

validated-Unmatched :
    (rules : List RateLimitRule) (c : Caches) (org_id : Text) (q : Request) (now : ℕ)
    → IsBare c
    → Unmatched (chosen (validated (validate_all rules) c org_id now) org_id q now)
unfolding chosen validated validate_all model_validate settle best_match
validated-Unmatched [] c org_id q now b = (
  record {
    no_answers = b.no_answers;
    no_rules = bare-insert (active_key org_id) _ c.active_rules b.no_rules;
  },
  refl,
)
validated-Unmatched (r ∷ rules) c org_id q now b = (b, refl)

from_cache-Unmatched :
    (o : Option (List RateLimitRule)) (rows : Table) (c : Caches) (org_id : Text) (q : Request)
    (now : ℕ)
    → IsBare c
    → IsEmptyList o
    → Unmatched (chosen (from_cache o rows c org_id now) org_id q now)
unfolding from_cache queried IsEmptyList
from_cache-Unmatched none rows c org_id q now b e =
    validated-Unmatched (query_active rows org_id now) c org_id q now b
from_cache-Unmatched (some []) rows c org_id q now b e =
    validated-Unmatched (query_active rows org_id now) c org_id q now b
from_cache-Unmatched (some (r ∷ rules)) rows c org_id q now b e = cc

missed :
    (k : Text) (now : ℕ) (d : Dict (ℕ × RateLimitRuleMatch))
    → d ≡ []
    → unexpired now (lookup k d) ≡ none
unfolding lookup unexpired
missed k now d h = rw h refl

resolve_rule-Unmatched :
    (rows : Table) (c : Caches) (org_id : Text) (q : Request) (now : ℕ)
    → IsBare c
    → Unmatched (resolve_rule rows c org_id q now)
unfolding resolve_rule answered get_active_rules
resolve_rule-Unmatched rows c org_id q now b =
    rw (missed (resolve_key org_id q) now c.resolved b.no_answers) (
      from_cache-Unmatched (unexpired now (lookup (active_key org_id) c.active_rules)) rows c org_id
        q now b (bare-lookup (active_key org_id) now c.active_rules b.no_rules))

run-Unmatched :
    (calls : List Call) (c : Caches)
    → IsBare c
    → All (λ answer. is_match answer ≡ false) (run c calls).1
unfolding run
run-Unmatched [] c b = tt
run-Unmatched (resolves rows org_id q now ∷ calls) c b =
    let (b', unmatched) = resolve_rule-Unmatched rows c org_id q now b in
    (unmatched, run-Unmatched calls (resolve_rule rows c org_id q now).0 b')
run-Unmatched (changes org_id ∷ calls) c b = run-Unmatched calls (invalidate_rules_cache c org_id) (
    unfold invalidate_rules_cache in
    record {
      no_answers = b.no_answers;
      no_rules = bare-remove (active_key org_id) c.active_rules b.no_rules;
    })

-- No rule is ever applied: from empty caches, through any calls of `resolve_rule` on any tables, for any
-- organizations and times, and any invalidations between them, no answer is a match.
pub resolve_rule_never :
    (calls : List Call) → All (λ answer. is_match answer ≡ false) (run empty_caches calls).1
resolve_rule_never calls =
    run-Unmatched calls empty_caches (record { no_answers = refl; no_rules = tt })
