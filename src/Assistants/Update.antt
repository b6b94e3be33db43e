-- ===== src/Assistants/Update.antt =====
-- `update_assistant`, `delete_assistant` and `set_assistant_latest`.
use open_langgraph_platform.Prelude.{
  ℕ, ◌+◌, Bool, ◌&&◌, not, Option, none, some, List, [], ◌∷◌, ◌++◌, Text, text_eq, if◌then◌else◌,
  filter, any, ◌==◌, leb, max,
}
use open_langgraph_platform.Value.{Fields}
use open_langgraph_platform.Assistants.{
  Details, Assistant, AssistantVersion, Invalidation, Tables, Reply, to_pydantic, World, is_own,
  find, text_or, description_or, fields_or_empty, split_context, one_assistant, bad_request,
  not_found, integrity_error, database_error, ok, raise,
}

pub record AssistantUpdate : Type 0 where
  pub name : Option Text
  pub description : Option Text
  pub config : Option Fields
  pub graph_id : Text
  pub context : Option Fields
  pub metadata : Option Fields

abbrev pub max_with : ℕ → Option ℕ → Option ℕ
max_with version none = some version
max_with version (some n) = some (max version n)

-- `func.max(version)`
unfoldable pub max_version : Text → List AssistantVersion → Option ℕ
max_version assistant_id [] = none
max_version assistant_id (v ∷ versions) =
    let rest = max_version assistant_id versions in
    if text_eq v.assistant_id assistant_id then max_with v.version rest else rest

unfoldable pub new_version : Option ℕ → ℕ
new_version none = 1
new_version (some n) = (if leb n 0 then 1 else n) + 1

-- the unique index on user, graph and config
unfoldable pub clashes : World → Text → Text → Details → List Assistant → Bool
clashes w assistant_id user_id d rows =
    any
      (λ a.
        not (text_eq a.assistant_id assistant_id)
        && (text_eq a.user_id user_id
            && (text_eq a.details.graph_id d.graph_id && w.config_eq a.details.config d.config)))
      rows

unfoldable pub set_details : Text → Text → Details → ℕ → ℕ → List Assistant → List Assistant
unfolding is_own
set_details assistant_id user_id d version now [] = []
set_details assistant_id user_id d version now (a ∷ rows) =
    let rest = set_details assistant_id user_id d version now rows in
    if is_own assistant_id user_id a
    then record a { details = d; version = version; updated_at = now } ∷ rest
    else a ∷ rest

-- the second transaction, which can fail
unfoldable pub write_details :
    World
    → Tables
    → Text
    → Text
    → Assistant
    → Details
    → ℕ
    → ℕ
    → List Invalidation
    → Tables × Reply Assistant
unfolding clashes set_details to_pydantic
write_details w t assistant_id user_id a d version now calls =
    if clashes w assistant_id user_id d t.assistants
    then (t, raise integrity_error)
    else if not w.row_commits
    then (t, raise database_error)
    else (
      record t {
        assistants = set_details assistant_id user_id d version now t.assistants;
        invalidations = t.invalidations ++ calls;
      },
      to_pydantic (record a { details = d; version = version; updated_at = now }),
    )

unfoldable pub updated_details : Assistant → AssistantUpdate → Fields → Option Fields → Details
updated_details a request config context = record {
  name = text_or request.name a.details.name;
  description = description_or request.description a.details.description;
  graph_id = text_or (some request.graph_id) a.details.graph_id;
  config = config;
  context = context;
}

unfoldable pub update_found :
    Option Assistant
    → World
    → Tables
    → Text
    → AssistantUpdate
    → Fields
    → Option Fields
    → Text
    → ℕ
    → Tables × Reply Assistant
unfolding write_details updated_details new_version max_version
update_found none w t assistant_id request config context user_id now = (t, raise not_found)
update_found (some a) w t assistant_id request config context user_id now =
    let d = updated_details a request config context in
    let version = new_version (max_version assistant_id t.versions) in
    let v : AssistantVersion = record {
      assistant_id = assistant_id;
      version = version;
      details = d;
      metadata = fields_or_empty request.metadata;
      created_at = now;
    } in
    write_details w (record t { versions = t.versions ++ v ∷ [] }) assistant_id user_id a d version
      now (one_assistant user_id assistant_id ∷ [])

unfoldable pub update_from :
    Option (Fields × Option Fields)
    → World
    → Tables
    → Text
    → AssistantUpdate
    → Text
    → ℕ
    → Tables × Reply Assistant
unfolding update_found find is_own
update_from none w t assistant_id request user_id now = (t, raise bad_request)
update_from (some (config, context)) w t assistant_id request user_id now =
    update_found (find (is_own assistant_id user_id) t.assistants) w t assistant_id request config
      context user_id now

unfoldable pub update_assistant :
    World → Tables → Text → AssistantUpdate → Text → ℕ → Tables × Reply Assistant
unfolding update_from split_context
update_assistant w t assistant_id request user_id now =
    update_from (split_context (fields_or_empty request.config) request.context) w t assistant_id
      request user_id now

-- Its versions go with the row.
unfoldable pub delete_found : Option Assistant → Tables → Text → Text → Tables × Reply (Unit {0})
delete_found none t assistant_id user_id = (t, raise not_found)
delete_found (some a) t assistant_id user_id = (
  record {
    assistants = filter (λ b. not (text_eq b.assistant_id assistant_id)) t.assistants;
    versions = filter (λ v. not (text_eq v.assistant_id assistant_id)) t.versions;
    invalidations = t.invalidations ++ one_assistant user_id assistant_id ∷ [];
  },
  ok tt,
)

unfoldable pub delete_assistant : Tables → Text → Text → Tables × Reply (Unit {0})
unfolding delete_found find is_own
delete_assistant t assistant_id user_id =
    delete_found (find (is_own assistant_id user_id) t.assistants) t assistant_id user_id

unfoldable pub is_version : Text → ℕ → AssistantVersion → Bool
is_version assistant_id version v = text_eq v.assistant_id assistant_id && v.version == version

-- the columns of a version
unfoldable pub details_at : Text → ℕ → List AssistantVersion → Option Details
unfolding is_version
details_at assistant_id version [] = none
details_at assistant_id version (v ∷ versions) =
    if is_version assistant_id version v
    then some v.details
    else details_at assistant_id version versions

unfoldable pub set_found :
    Option Assistant
    → Option Details
    → World
    → Tables
    → Text
    → ℕ
    → Text
    → ℕ
    → Tables × Reply Assistant
unfolding write_details
set_found none d w t assistant_id version user_id now = (t, raise not_found)
set_found (some a) none w t assistant_id version user_id now = (t, raise not_found)
set_found (some a) (some d) w t assistant_id version user_id now =
    write_details w t assistant_id user_id a d version now []

unfoldable pub set_assistant_latest :
    World → Tables → Text → ℕ → Text → ℕ → Tables × Reply Assistant
unfolding set_found find is_own details_at
set_assistant_latest w t assistant_id version user_id now =
    set_found (find (is_own assistant_id user_id) t.assistants)
      (details_at assistant_id version t.versions) w t assistant_id version user_id now
