-- ===== src/Assistants/Rollback.antt =====
-- Back to the version before an update.
use open_langgraph_platform.Prelude.{
  ℕ, ◌≡◌, refl, true, false, Option, none, some, List, [], ◌∷◌, ◌++◌, Text, text_eq, text_eq_iff,
  Bool-cases, inl, inr, ap, sym, ◌∙◌, All, All-weaken, and_left,
}
use open_langgraph_platform.Value.{Fields}
use open_langgraph_platform.Assistants.{
  Details, Assistant, AssistantVersion, Tables, ok, World, is_own, find, split_context,
  fields_or_empty, one_assistant, Invalidation,
}
use open_langgraph_platform.Assistants.Update.{
  max_version, new_version, clashes, set_details, write_details, updated_details, update_found,
  update_from, update_assistant, details_at, set_found, set_assistant_latest, AssistantUpdate,
}
use open_langgraph_platform.Assistants.Versions.{IsCurrent, IsVersioned, IsCurrent-last}
use open_langgraph_platform.Assistants.Reachable.{
  Command, all_complete, run, no_tables, reachable-IsVersioned,
}

find-All :
    (versions : List AssistantVersion) (id user : Text) (a : Assistant) (rows : List Assistant)
    → All (IsCurrent versions) rows
    → find (is_own id user) rows ≡ some a
    → details_at id a.version versions ≡ some a.details
unfolding find is_own
find-All versions id user a [] all h = cc
find-All versions id user a (b ∷ rows) (row, all) h = elim (Bool-cases (is_own id user b)) [
  | inl p ↦
      let same : some b ≡ some a = rw p at h in
      let equal : b ≡ a = cc same in
      let here : b.assistant_id ≡ id = (text_eq_iff b.assistant_id id).0 (and_left _ _ p) in
      rw (sym here, sym equal) row
  | inr p ↦ find-All versions id user a rows all (rw p at h)
]

kept_last :
    (v : AssistantVersion) (versions : List AssistantVersion) (id user : Text) (a : Assistant)
    (rows : List Assistant)
    → All (IsCurrent versions) rows
    → find (is_own id user) rows ≡ some a
    → details_at id a.version (versions ++ v ∷ []) ≡ some a.details
kept_last v versions id user a rows all h =
    find-All (versions ++ v ∷ []) id user a rows
      (All-weaken (IsCurrent versions) (IsCurrent (versions ++ v ∷ [])) rows
        (IsCurrent-last v versions) all)
      h

find-set_details :
    (id user : Text) (a : Assistant) (d : Details) (version now : ℕ) (rows : List Assistant)
    → find (is_own id user) rows ≡ some a
    → find (is_own id user) (set_details id user d version now rows)
      ≡ some (record a { details = d; version = version; updated_at = now })
unfolding find set_details is_own
find-set_details id user a d version now [] h = cc
find-set_details id user a d version now (b ∷ rows) h = elim (Bool-cases (is_own id user b)) [
  | inl p ↦
      let same : some b ≡ some a = rw p at h in
      let equal : b ≡ a = cc same in
      rw (p, p)
        (ap {A = Assistant}
          (λ x. some (record x { details = d; version = version; updated_at = now })) equal)
  | inr p ↦ rw (p, p) (find-set_details id user a d version now rows (rw p at h))
]

clashes-set_details :
    (w : World) (id user : Text) (e d : Details) (version now : ℕ) (rows : List Assistant)
    → clashes w id user e (set_details id user d version now rows) ≡ clashes w id user e rows
unfolding clashes set_details is_own
clashes-set_details w id user e d version now [] = refl
clashes-set_details w id user e d version now (b ∷ rows) = elim (Bool-cases (is_own id user b)) [
  | inl p ↦
      let here : text_eq b.assistant_id id ≡ true = and_left _ _ p in
      rw (p, here) (clashes-set_details w id user e d version now rows)
  | inr p ↦ rw (p, clashes-set_details w id user e d version now rows) refl
]

-- The row after a write and a return to what it showed.
set_back :
    (w : World) (rows : List Assistant) (versions : List AssistantVersion)
    (calls : List Invalidation) (id user : Text) (a : Assistant) (d : Details)
    (version now later : ℕ)
    → w.row_commits ≡ true
    → find (is_own id user) rows ≡ some a
    → details_at id a.version versions ≡ some a.details
    → clashes w id user a.details rows ≡ false
    → find
        (is_own id user)
        (set_assistant_latest w
          (record {
            assistants = set_details id user d version now rows;
            versions = versions;
            invalidations = calls;
          })
          id
          a.version
          user
          later).0.assistants
      ≡ some (record a { updated_at = later })
unfolding set_assistant_latest set_found write_details
set_back w rows versions calls id user a d version now later lands e old free =
    let found = find-set_details id user a d version now rows e in
    let none_clash = clashes-set_details w id user a.details d version now rows ∙ free in
    rw (found, old, none_clash, lands)
      (find-set_details id user (record a { details = d; version = version; updated_at = now })
        a.details a.version later (set_details id user d version now rows) found)

-- the row that comes back, from the tables that an update leaves
abbrev IsBack : World → Tables → Text → Text → Assistant → ℕ → Type 0
IsBack w t id user a later =
    find (is_own id user) (set_assistant_latest w t id a.version user later).0.assistants
    ≡ some (record a { updated_at = later })

update_found-IsBack :
    (o : Option Assistant) (w : World) (t : Tables) (id : Text) (request : AssistantUpdate)
    (config : Fields) (context : Option Fields) (user : Text) (now later : ℕ) (a r : Assistant)
    → w.row_commits ≡ true
    → IsVersioned t
    → find (is_own id user) t.assistants ≡ o
    → o ≡ some a
    → clashes w id user a.details t.assistants ≡ false
    → (update_found o w t id request config context user now).1 ≡ ok r
    → IsBack w (update_found o w t id request config context user now).0 id user a later
unfolding update_found write_details
update_found-IsBack none w t id request config context user now later a r lands valid e f free h =
    cc
update_found-IsBack (some b) w t id request config context user now later a r lands valid e f free
      h =
    let d = updated_details b request config context in
    let version = new_version (max_version id t.versions) in
    let v : AssistantVersion = record {
      assistant_id = id;
      version = version;
      details = d;
      metadata = fields_or_empty request.metadata;
      created_at = now;
    } in
    let own : find (is_own id user) t.assistants ≡ some a = e ∙ f in
    elim (Bool-cases (clashes w id user d t.assistants)) [
      | inl p ↦ cc (rw p at h)
      | inr p ↦
          simp (p, lands)
            (set_back w t.assistants (t.versions ++ v ∷ [])
              (t.invalidations ++ one_assistant user id ∷ []) id user a d version now later lands
              own (kept_last v t.versions id user a t.assistants valid.0 own) free)
    ]

update_from-IsBack :
    (o : Option (Fields × Option Fields)) (w : World) (t : Tables) (id : Text)
    (request : AssistantUpdate) (user : Text) (now later : ℕ) (a r : Assistant)
    → w.row_commits ≡ true
    → IsVersioned t
    → find (is_own id user) t.assistants ≡ some a
    → clashes w id user a.details t.assistants ≡ false
    → (update_from o w t id request user now).1 ≡ ok r
    → IsBack w (update_from o w t id request user now).0 id user a later
unfolding update_from
update_from-IsBack none w t id request user now later a r lands valid e free h = cc
update_from-IsBack (some (config, context)) w t id request user now later a r lands valid e free h =
    update_found-IsBack (find (is_own id user) t.assistants) w t id request config context user now
      later a r lands valid refl e free h

-- An update can be taken back: in tables that any operations reached that store the first version of each
-- new assistant, where the database commits the return, and no other assistant of the
-- user has the graph and the config of an assistant, an update of it that succeeds, followed by
-- `set_assistant_latest` with the version that it had, returns its row to what it was, every column
-- but the time of the last change.
pub update_assistant-Back :
    (w : World) (commands : List (World × Command)) (id : Text) (request : AssistantUpdate)
    (user : Text) (now later : ℕ) (a r : Assistant)
    → all_complete commands ≡ true
    → w.row_commits ≡ true
    → find (is_own id user) (run no_tables commands).assistants ≡ some a
    → clashes w id user a.details (run no_tables commands).assistants ≡ false
    → (update_assistant w (run no_tables commands) id request user now).1 ≡ ok r
    → find
        (is_own id user)
        (set_assistant_latest w
          (update_assistant w (run no_tables commands) id request user now).0
          id
          a.version
          user
          later).0.assistants
      ≡ some (record a { updated_at = later })
unfolding update_assistant
update_assistant-Back w commands id request user now later a r complete lands e free h =
    update_from-IsBack (split_context (fields_or_empty request.config) request.context) w
      (run no_tables commands) id request user now later a r lands
      (reachable-IsVersioned commands complete) e free h
