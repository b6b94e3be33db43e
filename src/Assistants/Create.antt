-- ===== src/Assistants/Create.antt =====
-- `create_assistant`.
use open_langgraph_platform.Prelude.{
  not, ℕ, Bool, false, ◌&&◌, ◌||◌, Option, none, some, List, [], ◌∷◌, ◌++◌, Text, codes, text_eq,
  if◌then◌else◌, any,
}
use open_langgraph_platform.Value.{Fields}
use open_langgraph_platform.Assistants.{
  Assistant, Tables, Reply, to_pydantic, World, find, text_or, fields_or_empty, split_context,
  user_assistants, bad_request, conflict, integrity_error, database_error, raise,
}

pub record AssistantCreate : Type 0 where
  pub assistant_id : Option Text
  pub name : Option Text
  pub description : Option Text
  pub config : Option Fields
  pub context : Option Fields
  pub graph_id : Text
  pub metadata : Option Fields
  pub if_exists : Option Text

-- the statement on what is there already
unfoldable pub is_existing : World → Text → Text → Fields → Text → Assistant → Bool
is_existing w user_id graph_id config assistant_id a =
    text_eq a.user_id user_id
    && (text_eq a.details.graph_id graph_id && w.config_eq a.details.config config
        || text_eq a.assistant_id assistant_id)

unfoldable pub does_nothing : Option Text → Bool
does_nothing none = false
does_nothing (some t) = text_eq t (codes "do_nothing")

-- the row's primary key may be another user's
unfoldable pub has_id : Text → List Assistant → Bool
has_id assistant_id rows = any (λ a. text_eq a.assistant_id assistant_id) rows

unfoldable pub store_new : World → Tables → Assistant → ℕ → Tables × Reply Assistant
unfolding has_id to_pydantic
store_new w t a now =
    if has_id a.assistant_id t.assistants
    then (t, raise integrity_error)
    else if not w.version_commits
    then (record t { assistants = t.assistants ++ a ∷ [] }, raise database_error)
    else (
      record {
        assistants = t.assistants ++ a ∷ [];
        versions =
            t.versions
            ++ record {
              assistant_id = a.assistant_id;
              version = 1;
              details = a.details;
              metadata = a.metadata;
              created_at = now;
            }
              ∷ [];
        invalidations = t.invalidations ++ user_assistants a.user_id ∷ [];
      },
      to_pydantic a,
    )

unfoldable pub unless_existing :
    Option Assistant → World → Tables → Option Text → Assistant → ℕ → Tables × Reply Assistant
unfolding store_new to_pydantic does_nothing
unless_existing none w t if_exists a now = store_new w t a now
unless_existing (some existing) w t if_exists a now =
    if does_nothing if_exists then (t, to_pydantic existing) else (t, raise conflict)

unfoldable pub create_from :
    Option (Fields × Option Fields)
    → World
    → Tables
    → AssistantCreate
    → Text
    → Option Text
    → Text
    → ℕ
    → Tables × Reply Assistant
unfolding unless_existing find is_existing
create_from none w t request user_id org_id new_id now = (t, raise bad_request)
create_from (some (config, context)) w t request user_id org_id new_id now =
    let assistant_id = text_or request.assistant_id new_id in
    let a : Assistant = record {
      assistant_id = assistant_id;
      details = record {
        name = text_or request.name (codes "Assistant for " ++ request.graph_id);
        description = request.description;
        graph_id = request.graph_id;
        config = config;
        context = context;
      };
      user_id = user_id;
      org_id = org_id;
      version = 1;
      metadata = fields_or_empty request.metadata;
      updated_at = now;
    } in
    unless_existing (find (is_existing w user_id request.graph_id config assistant_id) t.assistants)
      w t request.if_exists a now

unfoldable pub create_assistant :
    World → Tables → AssistantCreate → Text → Option Text → Text → ℕ → Tables × Reply Assistant
unfolding create_from split_context
create_assistant w t request user_id org_id new_id now =
    if w.is_available request.graph_id && w.loads request.graph_id
    then create_from (split_context (fields_or_empty request.config) request.context) w t request
        user_id org_id new_id now
    else (t, raise bad_request)
