-- ===== src/Assistants.antt =====
-- services/assistant_service.py, models/assistants.py and the tables of core/orm.py: assistants and their
-- versions. What the graphs' service says of a graph, JSON equality and new ids are arguments.
pub mod Versions
pub mod Steps
pub mod Create
pub mod Update
pub mod Reachable
pub mod Rollback
pub mod Reading
pub mod Unreadable
mod Examples
use open_langgraph_platform.Prelude.{
  ℕ, zero, suc, ◌+◌, Bool, true, false, ◌&&◌, ◌||◌, not, Option, none, some, List, [], ◌∷◌, ◌++◌,
  Text, codes, text_eq, if◌then◌else◌, filter, any, ◌==◌, leb, is_some, max,
}
use open_langgraph_platform.Value.{
  Value, none_value, bool, num, str, list, tuple, dict, Fields, end, field, get_field, set_field,
}

-- the columns that an assistant and its versions share
pub record Details : Type 0 where
  pub name : Text
  pub description : Option Text
  pub graph_id : Text
  pub config : Fields
  pub context : Option Fields

pub record Assistant : Type 0 where
  pub assistant_id : Text
  pub details : Details
  pub user_id : Text
  pub org_id : Option Text
  pub version : ℕ
  pub metadata : Fields
  pub updated_at : ℕ

pub record AssistantVersion : Type 0 where
  pub assistant_id : Text
  pub version : ℕ
  pub details : Details
  pub metadata : Fields
  pub created_at : ℕ

-- the calls of the cache service
pub data Invalidation : Type 0 where
  user_assistants : Text → Invalidation
  one_assistant : Text → Text → Invalidation

pub record Tables : Type 0 where
  pub assistants : List Assistant
  pub versions : List AssistantVersion
  pub invalidations : List Invalidation

-- HTTPExceptions by status, and what a unique index and pydantic raise
pub data Exception : Type 0 where
  bad_request not_found conflict integrity_error database_error validation_error : Exception

pub data Reply {ℓ} (A : Type ℓ) : Type ℓ where
  ok : A → Reply A
  raise : Exception → Reply A

-- `Assistant.context` of the answer is a dict.
unfoldable pub to_pydantic : Assistant → Reply Assistant
to_pydantic a = elim a.details.context [ none ↦ raise validation_error | some c ↦ ok a ]

-- What lies outside: the graphs, JSON equality in the database, and whether the transaction that stores the
-- first version and the one that updates a row land. The first transaction of an operation lands or
-- nothing happens.
pub record World : Type 0 where
  pub is_available : Text → Bool
  pub loads : Text → Bool
  pub config_eq : Fields → Fields → Bool
  pub version_commits : Bool
  pub row_commits : Bool

unfoldable pub is_own : Text → Text → Assistant → Bool
is_own assistant_id user_id a = text_eq a.assistant_id assistant_id && text_eq a.user_id user_id

unfoldable pub find : (Assistant → Bool) → List Assistant → Option Assistant
find test [] = none
find test (a ∷ rows) = if test a then some a else find test rows

abbrev pub text_or : Option Text → Text → Text
text_or none other = other
text_or (some []) other = other
text_or (some (c ∷ t)) other = c ∷ t

abbrev pub description_or : Option Text → Option Text → Option Text
description_or (some (c ∷ t)) other = some (c ∷ t)
description_or given other = other

abbrev pub fields_or_empty : Option Fields → Fields
fields_or_empty none = end
fields_or_empty (some fs) = fs

unfoldable pub has_entries : Option Fields → Bool
has_entries (some (field k v rest)) = true
has_entries given = false

-- by `config.get("configurable")`; `none` where both are given
unfoldable pub split : Option Value → Fields → Option Fields → Option (Fields × Option Fields)
unfolding has_entries set_field
split (some (dict section)) config context =
    if has_entries context then none else some (config, some section)
split section config none = some (config, none)
split section config (some context) =
    some (set_field (codes "configurable") (dict context) config, some context)

unfoldable pub split_context : Fields → Option Fields → Option (Fields × Option Fields)
unfolding split get_field
split_context config context = split (get_field (codes "configurable") config) config context
