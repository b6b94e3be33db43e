-- ===== src/Assistants/Reading.antt =====
-- `list_assistants` and `get_assistant`.
use open_langgraph_platform.Prelude.{
  Bool, true, false, ◌&&◌, ◌||◌, Option, none, some, List, [], ◌∷◌, Text, codes, text_eq, filter,
}
use open_langgraph_platform.Assistants.{
  Assistant, Tables, not_found, Reply, ok, raise, to_pydantic, find,
}

is_org : Option Text → Option Text → Bool
is_org none other = false
is_org (some org_id) none = false
is_org (some org_id) (some other) = text_eq other org_id

unfoldable pub access_filter : Text → Option Text → Bool → Assistant → Bool
unfolding is_org
access_filter user_id org_id include_system a =
    text_eq a.user_id user_id
    || (is_org org_id a.org_id || include_system && text_eq a.user_id (codes "system"))

unfoldable pub shown : Reply Assistant → Reply (List Assistant) → Reply (List Assistant)
shown (raise e) rest = raise e
shown (ok a) (raise e) = raise e
shown (ok a) (ok rows) = ok (a ∷ rows)

unfoldable pub show_all : List Assistant → Reply (List Assistant)
unfolding shown to_pydantic
show_all [] = ok []
show_all (a ∷ rows) = shown (to_pydantic a) (show_all rows)

unfoldable pub list_assistants : Tables → Text → Option Text → Reply (List Assistant)
unfolding access_filter show_all
list_assistants t user_id org_id =
    show_all (filter (access_filter user_id org_id false) t.assistants)

unfoldable pub get_assistant : Tables → Text → Text → Option Text → Reply Assistant
unfolding find access_filter to_pydantic
get_assistant t assistant_id user_id org_id =
    elim (find (λ a. text_eq a.assistant_id assistant_id && access_filter user_id org_id true a)
      t.assistants) [ none ↦ raise not_found | some a ↦ to_pydantic a ]
