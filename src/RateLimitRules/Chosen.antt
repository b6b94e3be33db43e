-- ===== src/RateLimitRules/Chosen.antt =====
-- What `resolve_rule` answers of the table, with neither the order of the query nor the caches in it.
use open_langgraph_platform.Prelude.{
  Bool, ◌&&◌, not, text_eq, ltb, any, arith, if◌then◌else◌, ◌∙◌, ℕ, ◌≤◌, ◌≡◌, refl, ◌⊎◌, true,
  false, Option, none, some, List, [], ◌∷◌, Text, leb, filter, Bool-cases, inl, inr, All, Occurs,
}
use open_langgraph_platform.Dict.{lookup}
use open_langgraph_platform.RateLimitRules.{RateLimitRule, RateLimitRuleMatch}
use open_langgraph_platform.RateLimitRules.Service.{
  Table, Caches, active_key, Reply, ok, raise, validation_error, model_validate, validate_all,
}
use open_langgraph_platform.RateLimitRules.Resolve.{
  Request, applies, is_active, insert_by_priority, order_by_priority, query_active, queried,
  from_cache, get_active_rules, best_match, resolve_key, settle, unexpired, validated, chosen,
  answered, resolve_rule, IsBest, no_rule, best, best_match-IsBest,
}

Occurs-insert_by_priority :
    (m r : RateLimitRule) (rules : List RateLimitRule)
    → Occurs m (insert_by_priority r rules)
    → (m ≡ r) ⊎ Occurs m rules
unfolding insert_by_priority
Occurs-insert_by_priority m r [] o = o
Occurs-insert_by_priority m r (s ∷ rules) o =
    elim (Bool-cases (leb s.base.priority r.base.priority)) [
      | inl p ↦ rw p at o
      | inr p ↦ elim (rw p at o) as (λ _. (m ≡ r) ⊎ Occurs m (s ∷ rules)) [
        | inl e ↦ inr (inl e)
        | inr o' ↦ elim (Occurs-insert_by_priority m r rules o') [
          | inl e ↦ inl e
          | inr o'' ↦ inr (inr o'')
        ]
      ]
    ]

Occurs-order_by_priority :
    (m : RateLimitRule) (rules : List RateLimitRule)
    → Occurs m (order_by_priority rules)
    → Occurs m rules
unfolding order_by_priority
Occurs-order_by_priority m [] o = o
Occurs-order_by_priority m (r ∷ rules) o =
    elim (Occurs-insert_by_priority m r (order_by_priority rules) o) [
      | inl e ↦ inl e
      | inr o' ↦ inr (Occurs-order_by_priority m rules o')
    ]

All-insert_by_priority :
    (P : RateLimitRule → Type 0) (r : RateLimitRule) (rules : List RateLimitRule)
    → All P (insert_by_priority r rules)
    → P r × All P rules
unfolding insert_by_priority
All-insert_by_priority P r [] a = a
All-insert_by_priority P r (s ∷ rules) a =
    elim (Bool-cases (leb s.base.priority r.base.priority)) as (λ _. P r × (P s × All P rules)) [
      | inl p ↦ rw p at a
      | inr p ↦
          let (here, later) : P s × All P (insert_by_priority r rules) = rw p at a in
          let (of_r, rest) = All-insert_by_priority P r rules later in (of_r, (here, rest))
    ]

All-order_by_priority :
    (P : RateLimitRule → Type 0) (rules : List RateLimitRule)
    → All P (order_by_priority rules)
    → All P rules
unfolding order_by_priority
All-order_by_priority P [] a = a
All-order_by_priority P (r ∷ rules) a =
    let (here, rest) = All-insert_by_priority P r (order_by_priority rules) a in
    (here, All-order_by_priority P rules rest)

order-IsBest :
    (q : Request) (rules : List RateLimitRule) (o : Option RateLimitRule)
    → IsBest q (order_by_priority rules) o
    → IsBest q rules o
order-IsBest q rules none (no_rule a) =
    no_rule (All-order_by_priority (λ r. applies q r ≡ false) rules a)
order-IsBest q rules (some m) (best o h a) =
    best (Occurs-order_by_priority m rules o) h
      (All-order_by_priority (λ r. applies q r ≡ true → r.base.priority ≤ m.base.priority) rules a)

-- The loop over the rules that the query selects, in the query's order, answers that no rule matches exactly
-- when none of the organization's enabled and unexpired rules matches the request, and otherwise one that
-- matches and whose priority is not below that of any other that does.
pub best_match-query_active :
    (rows : Table) (org_id : Text) (q : Request) (now : ℕ)
    → IsBest q
        (filter (is_active org_id now) rows)
        (best_match q (query_active rows org_id now) none)
unfolding query_active
best_match-query_active rows org_id q now =
    order-IsBest q (filter (is_active org_id now) rows)
      (best_match q (order_by_priority (filter (is_active org_id now) rows)) none)
      (best_match-IsBest q (order_by_priority (filter (is_active org_id now) rows)))

-- in force: the organization's, enabled and not past its time
abbrev pub in_force : Text → ℕ → RateLimitRule → Bool
in_force org_id now r =
    text_eq r.org_id org_id && (r.enabled && elim r.expires_at [ none ↦ true | some t ↦ ltb now t ])

abbrev pub is_nil {ℓ} : {A : Type ℓ} → List A → Bool
is_nil [] = true
is_nil (x ∷ xs) = false

is_nil-insert :
    (r : RateLimitRule) (rules : List RateLimitRule) → is_nil (insert_by_priority r rules) ≡ false
unfolding insert_by_priority
is_nil-insert r [] = refl
is_nil-insert r (s ∷ rules) = ground (arith, Bool-cases (leb s.base.priority r.base.priority))

is_nil-order : (rules : List RateLimitRule) → is_nil (order_by_priority rules) ≡ is_nil rules
unfolding order_by_priority
is_nil-order [] = refl
is_nil-order (r ∷ rules) = is_nil-insert r (order_by_priority rules)

is_nil-filter :
    (rows : Table) (org_id : Text) (now : ℕ)
    → is_nil (filter (is_active org_id now) rows) ≡ not (any (in_force org_id now) rows)
unfolding is_active
is_nil-filter [] org_id now = refl
is_nil-filter (r ∷ rows) org_id now = ground (arith, is_nil-filter rows org_id now)

none_valid :
    (rules : List RateLimitRule)
    → validate_all rules ≡ (if is_nil rules then ok [] else raise validation_error)
unfolding validate_all model_validate
none_valid [] = refl
none_valid (r ∷ rules) = refl

validated_lem :
    (o : Reply (List RateLimitRule)) (empty : Bool) (c : Caches) (org_id : Text) (q : Request)
    (now : ℕ)
    → o ≡ (if empty then ok [] else raise validation_error)
    → (chosen (validated o c org_id now) org_id q now).1
      ≡ (if empty then ok none else raise validation_error)
unfolding chosen validated settle best_match
validated_lem o empty c org_id q now h = elim (Bool-cases empty) [
  | inl p ↦ rw (h, p) refl
  | inr p ↦ rw (h, p) refl
]

turned :
    (empty some_rule : Bool)
    → empty ≡ not some_rule
    → (if◌then◌else◌ {A = Reply (Option RateLimitRuleMatch)} empty
        (ok none)
        (raise validation_error))
      ≡ (if some_rule then raise validation_error else ok none)
turned empty true h = rw h refl
turned empty false h = rw h refl

-- Without a cached answer or a cached list of rules that still stand, `resolve_rule` never answers with a
-- rule: it raises a validation error as soon as one rule of the organization is enabled and not past
-- its time, whether or not the request matches it, and answers that no rule matches otherwise.
pub resolve_rule_raises :
    (rows : Table) (c : Caches) (org_id : Text) (q : Request) (now : ℕ)
    → unexpired now (lookup (resolve_key org_id q) c.resolved) ≡ none
    → unexpired now (lookup (active_key org_id) c.active_rules) ≡ none
    → (resolve_rule rows c org_id q now).1
      ≡ (if any (in_force org_id now) rows then raise validation_error else ok none)
unfolding resolve_rule answered get_active_rules from_cache queried query_active
resolve_rule_raises rows c org_id q now no_answer no_list =
    let rules = order_by_priority (filter (is_active org_id now) rows) in
    let empty : is_nil rules ≡ not (any (in_force org_id now) rows) =
      is_nil-order (filter (is_active org_id now) rows) ∙ is_nil-filter rows org_id now in
    rw (no_answer, no_list)
      (validated_lem (validate_all rules) (is_nil rules) c org_id q now (none_valid rules)
        ∙ turned (is_nil rules) (any (in_force org_id now) rows) empty)
