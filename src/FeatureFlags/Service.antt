-- ===== src/FeatureFlags/Service.antt =====
-- `FeatureFlagService`, over its three tables and the cache of results. An id that the database makes
-- up, the time, and whether a key matches a pattern of Redis are arguments.
use open_langgraph_platform.Prelude.{
  ℕ, ◌+◌, Bool, true, false, ◌&&◌, Option, none, some, List, [], ◌∷◌, ◌++◌, Text, codes, text_eq,
  if◌then◌else◌, or_else,
}
use open_langgraph_platform.Value.{Value}
use open_langgraph_platform.FeatureFlags.{
  FlagStatus, active, archived, PercentageRolloutConfig, TargetingConfig, FeatureFlagBase,
  FeatureFlagCreate, FeatureFlag, FeatureFlagOverride,
}
use open_langgraph_platform.FeatureFlags.Evaluation.{Cache}

-- a row of the change log, with the snapshots of the flag or of the override
pub data Snapshot : Type 0 where
  of_flag : FeatureFlag → Snapshot
  of_override : FeatureFlagOverride → Snapshot

pub record FlagChangeEvent : Type 0 where
  pub flag_id : Text
  pub flag_key : Text
  pub org_id : Text
  pub event_type : Text
  pub changed_by : Option Text
  pub previous_value : Option Snapshot
  pub new_value : Option Snapshot
  pub timestamp : ℕ

pub record Service : Type 0 where
  pub flags : List FeatureFlag
  pub overrides : List FeatureFlagOverride
  pub changes : List FlagChangeEvent
  pub cache : Cache

pub data Exception : Type 0 where
  conflict not_found statement_error : Exception

pub data Reply {ℓ} (A : Type ℓ) : Type ℓ where
  ok : A → Reply A
  raise : Exception → Reply A

unfoldable pub find {ℓ} : {A : Type ℓ} → (A → Bool) → List A → Option A
find test [] = none
find test (x ∷ xs) = if test x then some x else find test xs

unfoldable pub replace {ℓ} : {A : Type ℓ} → (A → Bool) → A → List A → List A
replace test new [] = []
replace test new (x ∷ xs) = if test x then new ∷ xs else x ∷ replace test new xs

unfoldable pub discard {ℓ} : {A : Type ℓ} → (A → Bool) → List A → List A
discard test [] = []
discard test (x ∷ xs) = if test x then xs else x ∷ discard test xs

abbrev pub is_flag : Text → Text → FeatureFlag → Bool
is_flag org_id flag_id f = text_eq f.org_id org_id && text_eq f.flag_id flag_id

abbrev pub has_flag_key : Text → Text → FeatureFlag → Bool
has_flag_key org_id key f = text_eq f.org_id org_id && text_eq f.base.key key

abbrev pub is_override : Text → Text → FeatureFlagOverride → Bool
is_override org_id override_id o = text_eq o.org_id org_id && text_eq o.override_id override_id

unfoldable pub get_flag : Service → Text → Text → Option FeatureFlag
unfolding find
get_flag s org_id flag_id = find (is_flag org_id flag_id) s.flags

unfoldable pub get_flag_by_key : Service → Text → Text → Option FeatureFlag
unfolding find
get_flag_by_key s org_id key = find (has_flag_key org_id key) s.flags

-- What `json.dumps` makes of a snapshot, a dict whose `created_at` is a datetime: the engine has no other
-- serializer, and this one raises.
unfoldable pub encodes : Option Snapshot → Bool
encodes none = true
encodes (some snapshot) = false

-- The commit of a row with snapshots; `none` is the error that it raises.
unfoldable pub log_change :
    Service
    → Text
    → Text
    → Text
    → Text
    → Text
    → Option Snapshot
    → Option Snapshot
    → ℕ
    → Option Service
unfolding encodes
log_change s flag_id flag_key org_id event_type changed_by previous_value new_value now =
    if encodes previous_value && encodes new_value
    then some (record s {
      changes =
          s.changes
          ++ record {
            flag_id = flag_id;
            flag_key = flag_key;
            org_id = org_id;
            event_type = event_type;
            changed_by = some changed_by;
            previous_value = previous_value;
            new_value = new_value;
            timestamp = now;
          }
            ∷ [];
    })
    else none

-- How Redis matches a pattern, and which keys a scan has dealt with before an exception, which is
-- swallowed, ends it: none if Redis is missing.
pub record Redis : Type 0 where
  pub glob : Text → Text → Bool
  pub reached : Text → Bool

-- `delete_pattern`
unfoldable pub delete_pattern : Redis → Text → Cache → Cache
delete_pattern redis wild [] = []
delete_pattern redis wild ((key, r) ∷ cache) =
    let rest = delete_pattern redis wild cache in
    if redis.glob wild key && redis.reached key then rest else (key, r) ∷ rest

-- what the keys of a flag's results begin with
abbrev pub eval_prefix : Text → Text → Text
eval_prefix org_id flag_key = codes "ff_eval:" ++ (org_id ++ (codes ":" ++ (flag_key ++ codes ":")))

-- Nothing writes the other key, `ff_flags:…`, that it deletes.
unfoldable pub invalidate_flag_cache : Redis → Service → Text → Text → Service
unfolding delete_pattern
invalidate_flag_cache redis s org_id flag_key = record s {
  cache = delete_pattern redis (eval_prefix org_id flag_key ++ codes "*") s.cache;
}

-- behind the log: what is committed by then stays
unfoldable pub logged {ℓ} :
    {A : Type ℓ} → Redis → Option Service → Service → Text → Text → A → Service × Reply A
unfolding invalidate_flag_cache
logged redis none stored org_id flag_key a = (stored, raise statement_error)
logged redis (some s) stored org_id flag_key a =
    (invalidate_flag_cache redis s org_id flag_key, ok a)

new_flag : Text → Text → FeatureFlagCreate → Text → ℕ → FeatureFlag
new_flag flag_id org_id request created_by now = record {
  base = request.base;
  flag_id = flag_id;
  org_id = org_id;
  enabled = request.enabled;
  is_killswitch = request.is_killswitch;
  status = active;
  rollout = request.rollout;
  targeting = request.targeting;
  expires_at = request.expires_at;
  created_at = now;
  updated_at = now;
  created_by = some created_by;
  version = 1;
}

unfoldable pub create_flag :
    Redis → Service → Text → Text → FeatureFlagCreate → Text → ℕ → Service × Reply FeatureFlag
unfolding get_flag_by_key new_flag log_change logged
create_flag redis s flag_id org_id request created_by now =
    elim (get_flag_by_key s org_id request.base.key) [
      | some existing ↦ (s, raise conflict)
      | none ↦
          let flag = new_flag flag_id org_id request created_by now in
          let stored = record s { flags = s.flags ++ flag ∷ [] } in
          logged redis
            (log_change stored flag_id flag.base.key org_id (codes "created") created_by none
              (some (of_flag flag)) now)
            stored org_id flag.base.key flag
    ]

-- A field that was not sent is `none`; a column that may be null can be set to null.
pub record FeatureFlagUpdate : Type 0 where
  pub name : Option Text
  pub description : Option (Option Text)
  pub default_value : Option Value
  pub enabled_value : Option Value
  pub enabled : Option Bool
  pub is_killswitch : Option Bool
  pub rollout : Option PercentageRolloutConfig
  pub targeting : Option (Option TargetingConfig)
  pub tags : Option (List Text)
  pub expires_at : Option (Option ℕ)
  pub status : Option FlagStatus

-- the type of the event that is logged
event_of_status : Option FlagStatus → Text → Text
event_of_status (some archived) event = codes "archived"
event_of_status _ event = event

unfoldable pub event_type : FeatureFlagUpdate → Text
unfolding event_of_status
event_type u = event_of_status u.status (elim u.enabled [
  | none ↦ codes "updated"
  | some true ↦ codes "enabled"
  | some false ↦ codes "disabled"
])

updated_base : FeatureFlagUpdate → FeatureFlagBase → FeatureFlagBase
updated_base u b = record b {
  name = or_else u.name b.name;
  description = or_else u.description b.description;
  default_value = or_else u.default_value b.default_value;
  enabled_value = or_else u.enabled_value b.enabled_value;
  tags = or_else u.tags b.tags;
}

unfoldable pub updated_flag : FeatureFlagUpdate → ℕ → FeatureFlag → FeatureFlag
unfolding updated_base
updated_flag u now f = record f {
  base = updated_base u f.base;
  enabled = or_else u.enabled f.enabled;
  is_killswitch = or_else u.is_killswitch f.is_killswitch;
  status = or_else u.status f.status;
  rollout = or_else u.rollout f.rollout;
  targeting = or_else u.targeting f.targeting;
  expires_at = or_else u.expires_at f.expires_at;
  updated_at = now;
  version = f.version + 1;
}

unfoldable pub store_update :
    Redis
    → Service
    → Text
    → FeatureFlag
    → FeatureFlagUpdate
    → Text
    → ℕ
    → Service × Reply FeatureFlag
unfolding updated_flag replace log_change event_type logged
store_update redis s org_id flag request updated_by now =
    let new = updated_flag request now flag in
    let stored = record s { flags = replace (is_flag org_id flag.flag_id) new s.flags } in
    logged redis
      (log_change stored flag.flag_id new.base.key org_id (event_type request) updated_by
        (some (of_flag flag)) (some (of_flag new)) now)
      stored org_id new.base.key new

unfoldable pub update_found :
    Option FeatureFlag
    → Redis
    → Service
    → Text
    → FeatureFlagUpdate
    → Text
    → ℕ
    → Service × Reply FeatureFlag
unfolding store_update
update_found none redis s org_id request updated_by now = (s, raise not_found)
update_found (some flag) redis s org_id request updated_by now =
    store_update redis s org_id flag request updated_by now

unfoldable pub update_flag :
    Redis → Service → Text → Text → FeatureFlagUpdate → Text → ℕ → Service × Reply FeatureFlag
unfolding get_flag update_found
update_flag redis s org_id flag_id request updated_by now =
    update_found (get_flag s org_id flag_id) redis s org_id request updated_by now

unfoldable pub delete_flag : Redis → Service → Text → Text → Text → ℕ → Service × Reply (Unit {0})
unfolding get_flag discard log_change logged
delete_flag redis s org_id flag_id deleted_by now = elim (get_flag s org_id flag_id) [
  | none ↦ (s, raise not_found)
  | some flag ↦
      let stored = record s { flags = discard (is_flag org_id flag_id) s.flags } in
      logged redis
        (log_change stored flag_id flag.base.key org_id (codes "deleted") deleted_by
          (some (of_flag flag)) none now)
        stored org_id flag.base.key tt
]
