-- ===== src/RateLimitEnforcer/Examples.antt =====
-- A rule of two requests per second with a burst window of one request.
use open_langgraph_platform.Prelude.{
  ℕ, ◌<◌, ◌≤◌, ◌≡◌, refl, true, false, none, some, List, [], ◌∷◌, Text, codes, text_eq, length,
  arith,
}
use open_langgraph_platform.Dict.{lookup, insert}
use open_langgraph_platform.RateLimitRules.{RateLimitRuleMatch, org, second, reject}
use open_langgraph_platform.RateLimitEnforcer.{
  Store, serves, sliding_window_check, window_step, read, trim, zadd, build_redis_key,
}
use open_langgraph_platform.RateLimitEnforcer.Sliding.{
  Call, serve, ideal_serve, named, members_of, span,
}
use open_langgraph_platform.RateLimitEnforcer.Sliding.Refine.{in_order, is_fresh, serve_ideal}
use open_langgraph_platform.RateLimitEnforcer.Admitted.{admitted, held, serve_admits}
use open_langgraph_platform.RateLimitEnforcer.Check.{
  CheckRequest, burst_of, burst_part, check_burst_limit, key_of, check_rule, check_rate_limit,
  decided,
}
use open_langgraph_platform.RateLimitEnforcer.Refusals.{Full, window_at, check_rate_limit_refuses}

abbrev call : ℕ → Text → Call
call now member = record { key = codes "k"; now = now; member = member }

abbrev calls : List Call
calls =
    call 100 (codes "a") ∷ call 200 (codes "b") ∷ call 1150 (codes "c") ∷ call 1160 (codes "d") ∷ []

calls_in_order : in_order 0 calls ≡ true
unfolding in_order
calls_in_order = refl

calls_fresh : is_fresh (λ _. 1) (λ _. 2) [] calls ≡ true
unfolding is_fresh named members_of sliding_window_check window_step read trim zadd lookup insert
    text_eq
calls_fresh = refl

serve_test : serve (λ _. 1) (λ _. 2) [] calls ≡ (1, true) ∷ (2, true) ∷ (2, true) ∷ (2, false) ∷ []
unfolding serve sliding_window_check window_step read trim zadd lookup insert text_eq
serve_test = refl

serve_ideal_example :
    serve (λ _. 1) (λ _. 2) [] calls ≡ ideal_serve (λ _. 1) (λ _. 2) (λ _. []) calls
serve_ideal_example = serve_ideal (λ _. 1) (λ _. 2) calls calls_in_order calls_fresh

serve_admits_example :
    held
      (span (λ _. 1) (codes "k"))
      1155
      (admitted (codes "k") calls (serve (λ _. 1) (λ _. 2) [] calls))
    ≤ 2
serve_admits_example =
    serve_admits (λ _. 1) (λ _. 2) (codes "k") 1155 calls calls_in_order calls_fresh

abbrev rule : RateLimitRuleMatch
rule = record {
  rule_id = codes "r";
  rule_name = codes "r";
  target_type = org;
  requests_per_window = 2;
  window_size = second;
  window_seconds = 1;
  burst_limit = some 1;
  burst_window_seconds = some 1;
  action = reject;
  priority = 0;
}

abbrev request : ℕ → Text → CheckRequest
request now member = record {
  org_id = codes "o";
  path = codes "/runs";
  user_id = none;
  api_key_id = none;
  now = now;
  member = member;
  burst_member = member;
}

-- after one request
abbrev store : Store
store = (check_rate_limit serves ([], []) (some rule) (request 100 (codes "a"))).0.0

refused :
    (check_rate_limit serves (store, []) (some rule) (request 200 (codes "b"))).1.allowed ≡ false
unfolding check_rate_limit check_rule decided burst_of burst_part check_burst_limit
    sliding_window_check window_step read trim zadd lookup insert text_eq key_of build_redis_key
refused = refl

check_rate_limit_refuses_example :
    (m : RateLimitRuleMatch) × (some rule ≡ some m)
    × (serves ≡ serves)
    × (m.action ≡ reject)
    × Full store
        (sliding_window_check serves store
          (key_of m (request 200 (codes "b")))
          m.window_seconds
          m.requests_per_window
          200
          (codes "b")).0
        (key_of m (request 200 (codes "b")))
        m
        200
check_rate_limit_refuses_example =
    check_rate_limit_refuses serves store [] (some rule) (request 200 (codes "b")) refused

room : length (window_at store (key_of rule (request 200 (codes "b"))) 1 200) < 2
unfolding check_rate_limit check_rule decided burst_of burst_part check_burst_limit
    sliding_window_check window_step read trim zadd lookup insert text_eq key_of build_redis_key
room = omega arith

burst :
    (burst_part
      (burst_of rule)
      serves
      (sliding_window_check serves store
        (key_of rule (request 200 (codes "b")))
        1
        2
        200
        (codes "b")).0
      (key_of rule (request 200 (codes "b")))
      200
      (codes "b")).1.0
    ≡ false
unfolding check_rate_limit check_rule decided burst_of burst_part check_burst_limit
    sliding_window_check window_step read trim zadd lookup insert text_eq key_of build_redis_key
burst = refl
