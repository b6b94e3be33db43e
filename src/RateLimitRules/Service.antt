-- ===== src/RateLimitRules/Service.antt =====
-- `RateLimitRuleService`, over the table rate_limit_rules and the two families of cache keys that it
-- writes, whose entries are gone when their time is over. A value that the database makes up (an id)
-- or refuses is an argument.
use open_langgraph_platform.Prelude.{
  ℕ, Bool, true, false, ◌&&◌, ◌||◌, not, Option, none, some, List, [], ◌∷◌, ◌++◌, Text, codes,
  text_eq, if◌then◌else◌, or_else, ltb, leb, filter, length, take, drop,
}
use open_langgraph_platform.Dict.{Dict, remove}
use open_langgraph_platform.RateLimitRules.{
  RateLimitTarget, global, org, user, api_key, endpoint, RateLimitWindow, RateLimitAction,
  RateLimitRuleBase, RateLimitRuleCreate, RateLimitRule, RateLimitRuleMatch, active, is_given,
}
use open_langgraph_platform.RateLimitRules.Glob.{fnmatch}

abbrev pub Table : Type 0
Table = List RateLimitRule

-- `rl_rules:resolve:…` and `rl_rules:active:…`, each value with the time at which it is gone
pub record Caches : Type 0 where
  pub resolved : Dict (ℕ × RateLimitRuleMatch)
  pub active_rules : Dict (ℕ × List RateLimitRule)

pub data Exception : Type 0 where
  conflict not_found validation_error : Exception

pub data Reply {ℓ} (A : Type ℓ) : Type ℓ where
  ok : A → Reply A
  raise : Exception → Reply A

-- the first row that satisfies the test
unfoldable pub find : (RateLimitRule → Bool) → Table → Option RateLimitRule
find test [] = none
find test (r ∷ rows) = if test r then some r else find test rows

abbrev pub is_rule : Text → Text → RateLimitRule → Bool
is_rule org_id rule_id r = text_eq r.org_id org_id && text_eq r.rule_id rule_id

-- `RateLimitRule.model_validate(row)` reads `row.metadata`, which is SQLAlchemy's `MetaData` of the table
-- and no dict: the column is the attribute `metadata_dict`.
unfoldable pub model_validate : RateLimitRule → Reply RateLimitRule
model_validate row = raise validation_error

unfoldable pub validate_found : Option RateLimitRule → Reply (Option RateLimitRule)
unfolding model_validate
validate_found none = ok none
validate_found (some row) = elim (model_validate row) [ ok r ↦ ok (some r) | raise e ↦ raise e ]

-- the list comprehension
unfoldable pub validate_all : List RateLimitRule → Reply (List RateLimitRule)
unfolding model_validate
validate_all [] = ok []
validate_all (row ∷ rows) = elim (model_validate row) [
  | raise e ↦ raise e
  | ok r ↦ elim (validate_all rows) [ raise e ↦ raise e | ok rs ↦ ok (r ∷ rs) ]
]

unfoldable pub get_rule : Table → Text → Text → Reply (Option RateLimitRule)
unfolding find validate_found
get_rule rows org_id rule_id = validate_found (find (is_rule org_id rule_id) rows)

unfoldable pub get_rule_by_name : Table → Text → Text → Reply (Option RateLimitRule)
unfolding find validate_found
get_rule_by_name rows org_id name =
    validate_found (find (λ r. text_eq r.org_id org_id && text_eq r.base.name name) rows)

-- `target_id`, compared by the database, where NULL equals nothing
same_id : Option Text → Option Text → Bool
same_id (some a) (some b) = text_eq a b
same_id _ _ = false

-- `target_type == …`, on the values of the enum
unfoldable pub target_eq : RateLimitTarget → RateLimitTarget → Bool
target_eq global global = true
target_eq org org = true
target_eq user user = true
target_eq api_key api_key = true
target_eq endpoint endpoint = true
target_eq _ _ = false

pub record ListRequest : Type 0 where
  pub target_type : Option RateLimitTarget
  pub target_id : Option Text
  pub enabled : Option Bool
  pub limit : ℕ
  pub offset : ℕ

same_flag : Bool → Bool → Bool
same_flag a b = if a then b else not b

wanted : ListRequest → RateLimitRule → Bool
unfolding same_id target_eq same_flag
wanted q r =
    elim q.target_type [ none ↦ true | some t ↦ target_eq r.base.target_type t ]
    && elim q.target_id [ none ↦ true | some t ↦ same_id r.base.target_id (some t) ]
    && elim q.enabled [ none ↦ true | some b ↦ same_flag r.enabled b ]

-- `ORDER BY priority DESC, created_at DESC`
comes_before : RateLimitRule → RateLimitRule → Bool
comes_before r s =
    ltb s.base.priority r.base.priority
    || (leb s.base.priority r.base.priority && leb s.created_at r.created_at)

insert_listed : RateLimitRule → List RateLimitRule → List RateLimitRule
unfolding comes_before
insert_listed r [] = r ∷ []
insert_listed r (s ∷ rows) = if comes_before r s then r ∷ s ∷ rows else s ∷ insert_listed r rows

order_listed : List RateLimitRule → List RateLimitRule
unfolding insert_listed
order_listed [] = []
order_listed (r ∷ rows) = insert_listed r (order_listed rows)

abbrev pub of_org : Text → RateLimitRule → Bool
of_org org_id r = text_eq r.org_id org_id

pub record ListResponse : Type 0 where
  pub rules : List RateLimitRule
  pub total : ℕ
  pub limit : ℕ
  pub offset : ℕ

default_request : ListRequest
default_request = record {
  target_type = none;
  target_id = none;
  enabled = none;
  limit = 20;
  offset = 0;
}

-- The total counts all rules of the organization.
unfoldable pub list_rules : Table → Text → Option ListRequest → Reply ListResponse
unfolding wanted order_listed default_request validate_all
list_rules rows org_id request =
    let q = or_else request default_request in
    let selected = order_listed (filter (λ r. of_org org_id r && wanted q r) rows) in
    elim (validate_all (take q.limit (drop q.offset selected))) [
      | raise e ↦ raise e
      | ok rules ↦ ok (record {
        rules = rules;
        total = length (filter (of_org org_id) rows);
        limit = q.limit;
        offset = q.offset;
      })
    ]

abbrev pub active_key : Text → Text
active_key org_id = codes "rl_rules:active:" ++ org_id

unfoldable pub invalidate_rules_cache : Caches → Text → Caches
invalidate_rules_cache c org_id = record c {
  active_rules = remove (active_key org_id) c.active_rules;
}

unfoldable pub new_rule : Text → Text → RateLimitRuleCreate → Text → ℕ → RateLimitRule
new_rule rule_id org_id request created_by now = record {
  base = request.base;
  rule_id = rule_id;
  org_id = org_id;
  enabled = request.enabled;
  status = active;
  expires_at = request.expires_at;
  created_at = now;
  updated_at = now;
  created_by = some created_by;
}

unfoldable pub create_rule :
    Table
    → Caches
    → Text
    → Text
    → RateLimitRuleCreate
    → Text
    → ℕ
    → (Table × Caches) × Reply RateLimitRule
unfolding get_rule_by_name new_rule invalidate_rules_cache model_validate
create_rule rows c rule_id org_id request created_by now =
    elim (get_rule_by_name rows org_id request.base.name) [
      | raise e ↦ ((rows, c), raise e)
      | ok (some existing) ↦ ((rows, c), raise conflict)
      | ok none ↦
          let rule = new_rule rule_id org_id request created_by now in
          ((rows ++ rule ∷ [], invalidate_rules_cache c org_id), model_validate rule)
    ]

-- A field that was not sent is `none`; a column that may be null can be set to null.
pub record RateLimitRuleUpdate : Type 0 where
  pub name : Option Text
  pub description : Option (Option Text)
  pub requests_per_window : Option ℕ
  pub window_size : Option RateLimitWindow
  pub burst_limit : Option (Option ℕ)
  pub burst_window : Option (Option RateLimitWindow)
  pub action : Option RateLimitAction
  pub priority : Option ℕ
  pub enabled : Option Bool
  pub expires_at : Option (Option ℕ)

updated_base : RateLimitRuleUpdate → RateLimitRuleBase → RateLimitRuleBase
updated_base u b = record b {
  name = or_else u.name b.name;
  description = or_else u.description b.description;
  requests_per_window = or_else u.requests_per_window b.requests_per_window;
  window_size = or_else u.window_size b.window_size;
  burst_limit = or_else u.burst_limit b.burst_limit;
  burst_window = or_else u.burst_window b.burst_window;
  action = or_else u.action b.action;
  priority = or_else u.priority b.priority;
}

unfoldable pub updated_rule : RateLimitRuleUpdate → ℕ → RateLimitRule → RateLimitRule
unfolding updated_base
updated_rule u now r = record r {
  base = updated_base u r.base;
  enabled = or_else u.enabled r.enabled;
  expires_at = or_else u.expires_at r.expires_at;
  updated_at = now;
}

unfoldable pub replace_rule : Text → Text → RateLimitRule → Table → Table
replace_rule org_id rule_id new [] = []
replace_rule org_id rule_id new (r ∷ rows) =
    if is_rule org_id rule_id r then new ∷ rows else r ∷ replace_rule org_id rule_id new rows

unfoldable pub update_rule :
    Table → Caches → Text → Text → RateLimitRuleUpdate → ℕ → (Table × Caches) × Reply RateLimitRule
unfolding find updated_rule replace_rule invalidate_rules_cache model_validate
update_rule rows c org_id rule_id request now = elim (find (is_rule org_id rule_id) rows) [
  | none ↦ ((rows, c), raise not_found)
  | some r ↦
      let new = updated_rule request now r in
      ((replace_rule org_id rule_id new rows, invalidate_rules_cache c org_id), model_validate new)
]

unfoldable pub delete_row : Text → Text → Table → Table
delete_row org_id rule_id [] = []
delete_row org_id rule_id (r ∷ rows) =
    if is_rule org_id rule_id r then rows else r ∷ delete_row org_id rule_id rows

unfoldable pub deleted :
    Option RateLimitRule → Table → Caches → Text → Text → (Table × Caches) × Reply (Unit {0})
unfolding delete_row invalidate_rules_cache
deleted none rows c org_id rule_id = ((rows, c), raise not_found)
deleted (some r) rows c org_id rule_id =
    ((delete_row org_id rule_id rows, invalidate_rules_cache c org_id), ok tt)

unfoldable pub delete_rule : Table → Caches → Text → Text → (Table × Caches) × Reply (Unit {0})
unfolding find deleted
delete_rule rows c org_id rule_id =
    deleted (find (is_rule org_id rule_id) rows) rows c org_id rule_id

-- `user_id and rule.target_id == user_id`
unfoldable pub is_target : Option Text → Option Text → Bool
unfolding is_given same_id
is_target target_id id = is_given id && same_id target_id id

unfoldable pub rule_matches : RateLimitRule → Text → Option Text → Option Text → Bool
unfolding is_target
rule_matches rule path user_id api_key_id = elim rule.base.target_type [
  | global ↦ true
  | org ↦ true
  | user ↦ is_target rule.base.target_id user_id
  | api_key ↦ is_target rule.base.target_id api_key_id
  | endpoint ↦ elim rule.base.endpoint_pattern [
    | none ↦ false
    | some [] ↦ false
    | some (c ∷ p) ↦ fnmatch path (c ∷ p)
  ]
]
