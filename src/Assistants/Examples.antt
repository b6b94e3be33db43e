-- ===== src/Assistants/Examples.antt =====
-- One assistant: an update, the way back, and a null context.
use open_langgraph_platform.Prelude.{
  ℕ, ◌≡◌, refl, true, false, Option, none, some, List, [], ◌∷◌, Text, codes, text_eq, filter, All,
}
use open_langgraph_platform.Value.{Fields, end, field, str, set_field}
use open_langgraph_platform.Assistants.{Details, Assistant, ok, World, is_own, find}
use open_langgraph_platform.Assistants.Create.{AssistantCreate, create_assistant}
use open_langgraph_platform.Assistants.Update.{
  AssistantUpdate, update_assistant, set_assistant_latest, clashes,
}
use open_langgraph_platform.Assistants.Versions.{IsVersioned}
use open_langgraph_platform.Assistants.Reachable.{
  Command, create, run, apply, no_tables, reachable-IsVersioned,
}
use open_langgraph_platform.Assistants.Rollback.{update_assistant-Back}

-- Configs without entries are equal.
same_config : Fields → Fields → open_langgraph_platform.Prelude.Bool
same_config end end = true
same_config a b = false

abbrev world : World
world = record {
  is_available = text_eq (codes "agent");
  loads = λ g. true;
  config_eq = same_config;
  version_commits = true;
  row_commits = true;
}

abbrev creation : Option Fields → AssistantCreate
creation context = record {
  assistant_id = some (codes "a");
  name = some (codes "first");
  description = none;
  config = some end;
  context = context;
  graph_id = codes "agent";
  metadata = none;
  if_exists = none;
}

abbrev renaming : AssistantUpdate
renaming = record {
  name = some (codes "second");
  description = none;
  config = some end;
  graph_id = codes "agent";
  context = some end;
  metadata = none;
}

abbrev commands : List (World × Command)
commands = (world, create (creation (some end)) (codes "u") none (codes "x") 1) ∷ []

abbrev details : Text → Details
details name = record {
  name = name;
  description = none;
  graph_id = codes "agent";
  config = field (codes "configurable") (open_langgraph_platform.Value.dict end) end;
  context = some end;
}

abbrev row : Text → ℕ → ℕ → Assistant
row name version updated_at = record {
  assistant_id = codes "a";
  details = details name;
  user_id = codes "u";
  org_id = none;
  version = version;
  metadata = end;
  updated_at = updated_at;
}

reachable-IsVersioned_example : IsVersioned (run no_tables commands)
reachable-IsVersioned_example = reachable-IsVersioned commands refl

created_row :
    find (is_own (codes "a") (codes "u")) (run no_tables commands).assistants
    ≡ some (row (codes "first") 1 1)
unfolding find is_own run apply create_assistant text_eq
created_row = refl

no_clash :
    clashes world
      (codes "a")
      (codes "u")
      (details (codes "first"))
      (run no_tables commands).assistants
    ≡ false
unfolding clashes run apply create_assistant text_eq
no_clash = refl

renamed :
    (update_assistant world (run no_tables commands) (codes "a") renaming (codes "u") 2).1
    ≡ ok (row (codes "second") 2 2)
unfolding update_assistant run apply create_assistant text_eq
renamed = refl

update_assistant-Back_example :
    find
      (is_own (codes "a") (codes "u"))
      (set_assistant_latest world
        (update_assistant world (run no_tables commands) (codes "a") renaming (codes "u") 2).0
        (codes "a")
        1
        (codes "u")
        3).0.assistants
    ≡ some (row (codes "first") 1 3)
update_assistant-Back_example =
    update_assistant-Back world commands (codes "a") renaming (codes "u") 2 3
      (row (codes "first") 1 1) (row (codes "second") 2 2) refl refl created_row no_clash renamed
