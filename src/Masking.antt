-- ===== src/Masking.antt =====
-- utils/masking.py: sensitive values of an audit payload are replaced before it is written. The data
-- is a tree of JSON values and tuples, so it holds no cycle; `to_text` is Python's `str`.
pub mod Masked
mod Examples
use open_langgraph_platform.Prelude.{
  ℕ, zero, suc, ◌-◌, Bool, true, false, ◌&&◌, ◌||◌, not, Option, none, some, List, [], ◌∷◌, ◌++◌,
  Text, codes, text_eq, lower, occurs, length, take, any, ltb, if◌then◌else◌,
}
use open_langgraph_platform.Prelude.Int.{ℤ, pos}
use open_langgraph_platform.Value.{
  Value, none_value, bool, num, str, list, tuple, dict, Items, nil, cons, Fields, end, field, count,
  get_field, is_truthy,
}

abbrev pub sensitive_patterns : List Text
sensitive_patterns =
    codes "password"
    ∷ codes "api_key"
    ∷ codes "apikey"
    ∷ codes "secret"
    ∷ codes "token"
    ∷ codes "authorization"
    ∷ codes "credential"
    ∷ codes "private_key"
    ∷ codes "privatekey"
    ∷ codes "access_key"
    ∷ codes "accesskey"
    ∷ codes "bearer"
    ∷ codes "jwt"
    ∷ codes "cookie"
    ∷ codes "session"
    ∷ codes "sid"
    ∷ codes "auth"
    ∷ codes "set-cookie"
    ∷ codes "x-api-key"
    ∷ codes "refresh_token"
    ∷ codes "id_token"
    ∷ codes "dsn"
    ∷ codes "connection_string"
    ∷ codes "connection"
    ∷ codes "database_url"
    ∷ codes "db_url"
    ∷ codes "redis_url"
    ∷ codes "mongo_uri"
    ∷ codes "mongodb_uri"
    ∷ []

-- all of them in lower case
abbrev pub allowed_fields : List Text
allowed_fields =
    codes "graph_id"
    ∷ codes "assistant_id"
    ∷ codes "thread_id"
    ∷ codes "run_id"
    ∷ codes "user_id"
    ∷ codes "org_id"
    ∷ codes "name"
    ∷ codes "description"
    ∷ codes "status"
    ∷ codes "action"
    ∷ codes "resource_type"
    ∷ codes "resource_id"
    ∷ codes "http_method"
    ∷ codes "path"
    ∷ codes "config"
    ∷ codes "metadata"
    ∷ codes "created_at"
    ∷ codes "updated_at"
    ∷ codes "timestamp"
    ∷ []

abbrev pub max_depth : ℕ
max_depth = 10

abbrev pub max_string_length : ℕ
max_string_length = 1000

abbrev pub max_list_items : ℕ
max_list_items = 100

abbrev pub mask_value : Value
mask_value = str (codes "***REDACTED***")

unfoldable pub is_sensitive_key : Text → Bool
unfolding lower occurs text_eq
is_sensitive_key key =
    let key_lower = lower key in
    if any (text_eq key_lower) allowed_fields
    then false
    else any (λ part. occurs part key_lower) sensitive_patterns

unfoldable pub truncate_string : Text → Text
truncate_string value =
    let suffix = codes "...[TRUNCATED]" in
    if ltb max_string_length (length value)
    then take (max_string_length - length suffix) value ++ suffix
    else value

-- what stands for the items that a long list loses
unfoldable pub truncated_marker : ℕ → Value
truncated_marker total = dict (
    field (codes "_truncated") (bool true) (field (codes "_original_length") (num (pos total)) end))

-- `isinstance(item, dict) and item.get("_truncated")`
unfoldable pub is_marker : Value → Bool
unfolding get_field is_truthy
is_marker (dict fields) = elim (get_field (codes "_truncated") fields) [
  | none ↦ false
  | some v ↦ is_truthy v
]
is_marker v = false

-- `depth` counts down from `max_depth`. The loop over a list stops at `max_list_items`, where
-- `_limit_list` has put the marker; a list's `total` length is in it.
unfoldable mutual
  unfolding truncate_string truncated_marker is_marker is_sensitive_key

  pub mask : (Value → Text) → ℕ → Value → Value
  mask to_text zero v = dict (field (codes "_depth_exceeded") (bool true) end)
  mask to_text (suc depth) (dict fields) = dict (mask_fields to_text depth fields)
  mask to_text (suc depth) (list items) =
      list (mask_items to_text depth max_list_items (count items) items)
  mask to_text (suc depth) (tuple items) = str (truncate_string (to_text (tuple items)))
  mask to_text (suc depth) (str s) = str (truncate_string s)
  mask to_text (suc depth) (num n) = num n
  mask to_text (suc depth) (bool b) = bool b
  mask to_text (suc depth) none_value = none_value

  pub mask_fields : (Value → Text) → ℕ → Fields → Fields
  mask_fields to_text depth end = end
  mask_fields to_text depth (field key value fields) =
      let masked = mask to_text depth value in
      field key (if is_sensitive_key key then mask_value else masked)
        (mask_fields to_text depth fields)

  pub mask_items : (Value → Text) → ℕ → ℕ → ℕ → Items → Items
  mask_items to_text depth left total nil = nil
  mask_items to_text depth zero total (cons item items) = cons (truncated_marker total) nil
  mask_items to_text depth (suc left) total (cons item items) =
      let masked = mask to_text depth item in
      cons (if is_marker item then item else masked) (mask_items to_text depth left total items)

unfoldable pub mask_sensitive_data : (Value → Text) → Value → Value
unfolding mask
mask_sensitive_data to_text v = mask to_text max_depth v
