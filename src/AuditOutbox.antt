-- ===== src/AuditOutbox.antt =====
-- services/audit_outbox_service.py: the audit records that wait in audit_logs_outbox, and the mover
-- that takes them to audit_logs. A payload is the JSON value of its column, so no `datetime` stands in
-- it. What the database answers is an argument of each operation.
pub mod Retries
pub mod Mover
pub mod Rows
pub mod Batch
pub mod Kept
pub mod Drain
mod Examples
use open_langgraph_platform.Prelude.{
  ℕ, zero, suc, ◌+◌, Bool, true, false, ◌&&◌, ◌||◌, not, Option, none, some, List, [], ◌∷◌, ◌++◌,
  Text, codes, text_eq, lower, occurs, starts_with, ends_with, map, if◌then◌else◌, ltb, leb, length,
  or_else, is_some, ◌==◌,
}
use open_langgraph_platform.Dict.{Dict, lookup, insert, remove, has}
use open_langgraph_platform.Value.{
  Value, none_value, bool, num, str, dict, Fields, end, get_field, is_truthy,
}
use open_langgraph_platform.Prelude.Int.{ℤ, pos}

-- a row without its id
pub record OutboxRow : Type 0 where
  pub payload : Fields
  pub created_at : ℕ
  pub processed : Bool

pub record AuditLog : Type 0 where
  pub id : Value
  pub timestamp : ℕ
  pub user_id : Value
  pub org_id : Value
  pub action : Value
  pub resource_type : Value
  pub resource_id : Value
  pub http_method : Value
  pub path : Value
  pub ip_address : Value
  pub user_agent : Value
  pub request_body : Value
  pub response_summary : Value
  pub status_code : Value
  pub duration_ms : Value
  pub error_message : Value
  pub error_class : Value
  pub is_streaming : Value
  pub metadata_dict : Value

pub record AuditMetrics : Type 0 where
  pub inserted : ℕ
  pub moved : ℕ
  pub dropped : ℕ
  pub mover_errors : ℕ
  pub poison_pills : ℕ

unfoldable pub reset : AuditMetrics → AuditMetrics
reset m = record { inserted = 0; moved = 0; dropped = 0; mover_errors = 0; poison_pills = 0 }

unfoldable pub to_dict : AuditMetrics → Dict ℕ
to_dict m =
    (codes "audit.inserted", m.inserted)
    ∷ (codes "audit.moved", m.moved)
    ∷ (codes "audit.dropped", m.dropped)
    ∷ (codes "audit.mover_errors", m.mover_errors)
    ∷ (codes "audit.poison_pills", m.poison_pills)
    ∷ []

-- `payload.get(key, default)`
unfoldable pub get_or : Text → Value → Fields → Value
unfolding get_field
get_or key default payload = or_else (get_field key payload) default

-- `payload.get("id") or str(uuid.uuid4())`
unfoldable pub audit_id : Fields → Text → Value
unfolding get_or is_truthy
audit_id payload uuid =
    let id = get_or (codes "id") none_value payload in if is_truthy id then id else str uuid

-- `value[:-1]`
all_but_last : Text → Text
all_but_last [] = []
all_but_last (c ∷ []) = []
all_but_last (c ∷ d ∷ t) = c ∷ all_but_last (d ∷ t)

unfoldable pub with_offset : Text → Text
unfolding ends_with all_but_last
with_offset value =
    if ends_with value (codes "Z") then all_but_last value ++ codes "+00:00" else value

-- `fromisoformat` is `datetime.fromisoformat`, and `none` its `ValueError`.
unfoldable pub parse_timestamp : (Text → Option ℕ) → ℕ → Value → ℕ
unfolding with_offset
parse_timestamp fromisoformat now (str value) = or_else (fromisoformat (with_offset value)) now
parse_timestamp fromisoformat now value = now

unfoldable pub audit_log_of : (Text → Option ℕ) → ℕ → Text → Fields → AuditLog
unfolding audit_id parse_timestamp get_or
audit_log_of fromisoformat now uuid payload = record {
  id = audit_id payload uuid;
  timestamp = parse_timestamp fromisoformat now (get_or (codes "timestamp") none_value payload);
  user_id = get_or (codes "user_id") (str (codes "unknown")) payload;
  org_id = get_or (codes "org_id") none_value payload;
  action = get_or (codes "action") (str (codes "UNKNOWN")) payload;
  resource_type = get_or (codes "resource_type") (str (codes "unknown")) payload;
  resource_id = get_or (codes "resource_id") none_value payload;
  http_method = get_or (codes "http_method") (str (codes "UNKNOWN")) payload;
  path = get_or (codes "path") (str (codes "/")) payload;
  ip_address = get_or (codes "ip_address") none_value payload;
  user_agent = get_or (codes "user_agent") none_value payload;
  request_body = get_or (codes "request_body") none_value payload;
  response_summary = get_or (codes "response_summary") none_value payload;
  status_code = get_or (codes "status_code") (num (pos 0)) payload;
  duration_ms = get_or (codes "duration_ms") (num (pos 0)) payload;
  error_message = get_or (codes "error_message") none_value payload;
  error_class = get_or (codes "error_class") none_value payload;
  is_streaming = get_or (codes "is_streaming") (bool false) payload;
  metadata_dict = get_or (codes "metadata") (dict end) payload;
}

unfoldable pub is_partition_error : Text → Bool
unfolding lower occurs
is_partition_error error =
    let error_str = lower error in
    occurs (codes "no partition") error_str
    || occurs (codes "partition constraint") error_str
    || occurs (codes "partition of relation") error_str
