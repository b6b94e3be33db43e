-- ===== src/RateLimitRules/Examples.antt =====
-- Two rules of an organization, one of them for an endpoint.
use open_langgraph_platform.Prelude.{
  ℕ, ◌≡◌, refl, true, false, Option, none, some, List, [], ◌∷◌, Text, codes, text_eq, any, All,
  if◌then◌else◌,
}
use open_langgraph_platform.Dict.{lookup}
use open_langgraph_platform.RateLimitRules.{
  RateLimitTarget, RateLimitRule, global, endpoint, hour, reject, active,
}
use open_langgraph_platform.RateLimitRules.Glob.{fnmatch}
use open_langgraph_platform.RateLimitRules.Service.{
  Table, rule_matches, active_key, ok, raise, validation_error,
}
use open_langgraph_platform.RateLimitRules.Resolve.{
  Request, is_active, query_active, best_match, resolve_key, unexpired, resolve_rule,
}
use open_langgraph_platform.RateLimitRules.Chosen.{in_force, resolve_rule_raises}
use open_langgraph_platform.RateLimitRules.Unmatched.{
  Call, resolves, changes, run, empty_caches, is_match, resolve_rule_never,
}

abbrev rule_of : Text → RateLimitTarget → Option Text → ℕ → RateLimitRule
rule_of id target pattern_text priority = record {
  base = record {
    name = id;
    description = none;
    target_type = target;
    target_id = none;
    endpoint_pattern = pattern_text;
    requests_per_window = 10;
    window_size = hour;
    burst_limit = none;
    burst_window = none;
    action = reject;
    priority = priority;
  };
  rule_id = id;
  org_id = codes "o";
  enabled = true;
  status = active;
  expires_at = none;
  created_at = 0;
  updated_at = 0;
  created_by = none;
}

abbrev everywhere : RateLimitRule
everywhere = rule_of (codes "g") global none 0

abbrev of_runs : RateLimitRule
of_runs = rule_of (codes "e") endpoint (some (codes "/runs*")) 200

abbrev table : Table
table = everywhere ∷ of_runs ∷ []

abbrev request : Request
request = record { path = codes "/runs/7"; user_id = none; api_key_id = none }

no_answer : unexpired 5 (lookup (resolve_key (codes "o") request) empty_caches.resolved) ≡ none
unfolding lookup unexpired
no_answer = refl

no_list : unexpired 5 (lookup (active_key (codes "o")) empty_caches.active_rules) ≡ none
unfolding lookup unexpired
no_list = refl

resolve_rule_raises_example :
    (resolve_rule table empty_caches (codes "o") request 5).1
    ≡ (if any (in_force (codes "o") 5) table then raise validation_error else ok none)
resolve_rule_raises_example =
    resolve_rule_raises table empty_caches (codes "o") request 5 no_answer no_list

in_force_test : any (in_force (codes "o") 5) table ≡ true
unfolding text_eq
in_force_test = refl

best_test : best_match request (query_active table (codes "o") 5) none ≡ some of_runs
unfolding query_active is_active best_match rule_matches fnmatch text_eq
best_test = refl

abbrev calls : List Call
calls =
    resolves [] (codes "o") request 1
    ∷ resolves table (codes "o") request 5
    ∷ changes (codes "o")
    ∷ resolves table (codes "o") request 6
    ∷ []

resolve_rule_never_example : All (λ answer. is_match answer ≡ false) (run empty_caches calls).1
resolve_rule_never_example = resolve_rule_never calls
