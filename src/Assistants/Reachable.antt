-- ===== src/Assistants/Reachable.antt =====
-- Every sequence of operations on assistants, from empty tables.
use open_langgraph_platform.Prelude.{
  and_left, and_right, Bool, true, ◌&&◌, ℕ, ◌≡◌, refl, ◌&&◌, Option, none, some, List, [], ◌∷◌,
  Text, Bool-cases, inl, inr,
}
use open_langgraph_platform.Value.{Fields}
use open_langgraph_platform.Assistants.{
  Details, Assistant, Tables, World, is_own, find, split_context, fields_or_empty,
}
use open_langgraph_platform.Assistants.Create.{
  unless_existing, create_from, create_assistant, AssistantCreate, does_nothing,
}
use open_langgraph_platform.Assistants.Update.{
  max_version, update_from, update_assistant, delete_assistant, details_at, set_found,
  set_assistant_latest, AssistantUpdate,
}
use open_langgraph_platform.Assistants.Versions.{IsVersioned}
use open_langgraph_platform.Assistants.Steps.{
  store_new-IsVersioned, write_details-IsVersioned, update_found-IsVersioned,
  delete_found-IsVersioned,
}

-- the operations that write, with the ids and times that they get
pub data Command : Type 0 where
  create : AssistantCreate → Text → Option Text → Text → ℕ → Command
  update : Text → AssistantUpdate → Text → ℕ → Command
  delete : Text → Text → Command
  set_latest : Text → ℕ → Text → ℕ → Command

unfoldable pub apply : World → Tables → Command → Tables
unfolding create_assistant update_assistant delete_assistant set_assistant_latest
apply w t (create request user_id org_id new_id now) =
    (create_assistant w t request user_id org_id new_id now).0
apply w t (update assistant_id request user_id now) =
    (update_assistant w t assistant_id request user_id now).0
apply w t (delete assistant_id user_id) = (delete_assistant t assistant_id user_id).0
apply w t (set_latest assistant_id version user_id now) =
    (set_assistant_latest w t assistant_id version user_id now).0

unfoldable pub run : Tables → List (World × Command) → Tables
unfolding apply
run t [] = t
run t ((w, c) ∷ commands) = run (apply w t c) commands

-- The transactions that store first versions land.
abbrev pub all_complete : List (World × Command) → Bool
all_complete [] = true
all_complete ((w, c) ∷ commands) = w.version_commits && all_complete commands

unless_existing-IsVersioned :
    (o : Option Assistant) (w : World) (t : Tables) (if_exists : Option Text) (a : Assistant)
    (now : ℕ)
    → w.version_commits ≡ true
    → IsVersioned t
    → a.version ≡ 1
    → IsVersioned (unless_existing o w t if_exists a now).0
unfolding unless_existing
unless_existing-IsVersioned none w t if_exists a now lands valid first =
    store_new-IsVersioned w t a now lands valid first
unless_existing-IsVersioned (some b) w t if_exists a now lands valid first =
    elim (Bool-cases (does_nothing if_exists)) [ inl p ↦ rw p valid | inr p ↦ rw p valid ]

create_from-IsVersioned :
    (o : Option (Fields × Option Fields)) (w : World) (t : Tables) (request : AssistantCreate)
    (user_id : Text) (org_id : Option Text) (new_id : Text) (now : ℕ)
    → w.version_commits ≡ true
    → IsVersioned t
    → IsVersioned (create_from o w t request user_id org_id new_id now).0
unfolding create_from
create_from-IsVersioned none w t request user_id org_id new_id now lands valid = valid
create_from-IsVersioned (some (config, context)) w t request user_id org_id new_id now lands valid =
    unless_existing-IsVersioned _ w t request.if_exists _ now lands valid refl

update_from-IsVersioned :
    (o : Option (Fields × Option Fields)) (w : World) (t : Tables) (assistant_id : Text)
    (request : AssistantUpdate) (user_id : Text) (now : ℕ)
    → IsVersioned t
    → IsVersioned (update_from o w t assistant_id request user_id now).0
unfolding update_from
update_from-IsVersioned none w t assistant_id request user_id now valid = valid
update_from-IsVersioned (some (config, context)) w t assistant_id request user_id now valid =
    update_found-IsVersioned (find (is_own assistant_id user_id) t.assistants) w t assistant_id
      request config context user_id now refl valid

set_found-IsVersioned :
    (o : Option Assistant) (d : Option Details) (w : World) (t : Tables) (assistant_id : Text)
    (version : ℕ) (user_id : Text) (now : ℕ)
    → details_at assistant_id version t.versions ≡ d
    → IsVersioned t
    → IsVersioned (set_found o d w t assistant_id version user_id now).0
unfolding set_found
set_found-IsVersioned none d w t assistant_id version user_id now e valid = valid
set_found-IsVersioned (some a) none w t assistant_id version user_id now e valid = valid
set_found-IsVersioned (some a) (some d) w t assistant_id version user_id now e valid =
    write_details-IsVersioned w t assistant_id user_id a d version now [] valid e

create_assistant-IsVersioned :
    (w : World) (t : Tables) (request : AssistantCreate) (user_id : Text) (org_id : Option Text)
    (new_id : Text) (now : ℕ)
    → w.version_commits ≡ true
    → IsVersioned t
    → IsVersioned (create_assistant w t request user_id org_id new_id now).0
unfolding create_assistant
create_assistant-IsVersioned w t request user_id org_id new_id now lands valid =
    elim (Bool-cases (w.is_available request.graph_id && w.loads request.graph_id)) [
      | inl p ↦ rw p (
          create_from-IsVersioned (split_context (fields_or_empty request.config) request.context) w
            t request user_id org_id new_id now lands valid)
      | inr p ↦ rw p valid
    ]

apply-IsVersioned :
    (w : World) (t : Tables) (c : Command)
    → w.version_commits ≡ true
    → IsVersioned t
    → IsVersioned (apply w t c)
unfolding apply create_assistant update_assistant delete_assistant set_assistant_latest
apply-IsVersioned w t (create request user_id org_id new_id now) lands valid =
    create_assistant-IsVersioned w t request user_id org_id new_id now lands valid
apply-IsVersioned w t (update assistant_id request user_id now) lands valid =
    update_from-IsVersioned (split_context (fields_or_empty request.config) request.context) w t
      assistant_id request user_id now valid
apply-IsVersioned w t (delete assistant_id user_id) lands valid =
    delete_found-IsVersioned (find (is_own assistant_id user_id) t.assistants) t assistant_id
      user_id valid
apply-IsVersioned w t (set_latest assistant_id version user_id now) lands valid =
    set_found-IsVersioned (find (is_own assistant_id user_id) t.assistants)
      (details_at assistant_id version t.versions) w t assistant_id version user_id now refl valid

abbrev pub no_tables : Tables
no_tables = record { assistants = []; versions = []; invalidations = [] }

pub run-IsVersioned :
    (t : Tables) (commands : List (World × Command))
    → all_complete commands ≡ true
    → IsVersioned t
    → IsVersioned (run t commands)
unfolding run
run-IsVersioned t [] h valid = valid
run-IsVersioned t ((w, c) ∷ commands) h valid =
    run-IsVersioned (apply w t c) commands (and_right w.version_commits (all_complete commands) h)
      (apply-IsVersioned w t c (and_left w.version_commits (all_complete commands) h) valid)

-- Whatever operations run, one after the other, from empty tables, and however they fail, as long as the
-- transaction that stores the first version of a new assistant lands: each row of the assistants has the
-- name, the description, the graph, the config and the context of the version that it names, and an id
-- without a row has no versions left.
pub reachable-IsVersioned :
    (commands : List (World × Command))
    → all_complete commands ≡ true
    → IsVersioned (run no_tables commands)
unfolding max_version
reachable-IsVersioned commands h = run-IsVersioned no_tables commands h (tt, λ k h. refl)
