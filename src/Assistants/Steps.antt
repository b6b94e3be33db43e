-- ===== src/Assistants/Steps.antt =====
-- What each operation on assistants does to the versions that the rows name.
use open_langgraph_platform.Prelude.{
  ℕ, ◌≡◌, refl, true, false, ◌&&◌, ◌||◌, not, Option, none, some, List, [], ◌∷◌, ◌++◌, Text,
  text_eq, text_eq_iff, if◌then◌else◌, filter, any-append, arith, Bool-cases, inl, inr, ap, sym,
  ◌∙◌, All, All-append, All-weaken, and_left,
}
use open_langgraph_platform.Value.{Fields}
use open_langgraph_platform.Assistants.{
  Details, Assistant, AssistantVersion, Tables, World, is_own, find, fields_or_empty, one_assistant,
  Invalidation,
}
use open_langgraph_platform.Assistants.Create.{has_id, store_new}
use open_langgraph_platform.Assistants.Update.{
  max_version, new_version, clashes, set_details, write_details, updated_details, update_found,
  delete_found, is_version, details_at, AssistantUpdate,
}
use open_langgraph_platform.Assistants.Versions.{
  IsCurrent, IsVersioned, IsCurrent-last, named_last, new_version_free, max_version_last, is_free,
}

pub store_new-IsVersioned :
    (w : World) (t : Tables) (a : Assistant) (now : ℕ)
    → w.version_commits ≡ true
    → IsVersioned t
    → a.version ≡ 1
    → IsVersioned (store_new w t a now).0
unfolding store_new has_id
store_new-IsVersioned w t a now lands (rows, orphans) first =
    elim (Bool-cases (has_id a.assistant_id t.assistants)) [
      | inl p ↦ rw p (rows, orphans)
      | inr p ↦
          let v : AssistantVersion = record {
            assistant_id = a.assistant_id;
            version = 1;
            details = a.details;
            metadata = a.metadata;
            created_at = now;
          } in
          let free : is_free (max_version a.assistant_id t.versions) 1 ≡ true =
            rw (orphans a.assistant_id p) refl in
          rw (p, lands)
            (
              All-append (IsCurrent (t.versions ++ v ∷ [])) t.assistants (a ∷ [])
                  (All-weaken (IsCurrent t.versions) (IsCurrent (t.versions ++ v ∷ [])) t.assistants
                    (IsCurrent-last v t.versions) rows)
                  (rw first (named_last v t.versions free), tt),
              λ k h.
                  let both : (has_id k t.assistants || (text_eq a.assistant_id k || false))
                      ≡ false =
                    sym (any-append (λ b. text_eq b.assistant_id k) t.assistants (a ∷ [])) ∙ h in
                  let other : text_eq a.assistant_id k ≡ false = ground (arith, both) in
                  max_version_last k v t.versions other ∙ orphans k (ground (arith, both)),
            )
    ]

pub set_details-All :
    (versions : List AssistantVersion) (assistant_id user_id : Text) (d : Details) (version now : ℕ)
    (rows : List Assistant)
    → details_at assistant_id version versions ≡ some d
    → All (IsCurrent versions) rows
    → All (IsCurrent versions) (set_details assistant_id user_id d version now rows)
unfolding set_details is_own
set_details-All versions assistant_id user_id d version now [] h rows = tt
set_details-All versions assistant_id user_id d version now (a ∷ others) h (row, rows) =
    let rest = set_details-All versions assistant_id user_id d version now others h rows in
    elim (Bool-cases (is_own assistant_id user_id a)) [
      | inl p ↦
          let same : a.assistant_id ≡ assistant_id =
            (text_eq_iff a.assistant_id assistant_id).0 (and_left _ _ p) in
          rw p (rw same h, rest)
      | inr p ↦ rw p (row, rest)
    ]

has_id-set_details :
    (k assistant_id user_id : Text) (d : Details) (version now : ℕ) (rows : List Assistant)
    → has_id k (set_details assistant_id user_id d version now rows) ≡ has_id k rows
unfolding has_id set_details
has_id-set_details k assistant_id user_id d version now [] = refl
has_id-set_details k assistant_id user_id d version now (a ∷ rows) =
    elim (Bool-cases (is_own assistant_id user_id a)) [
      | inl p ↦ rw p (
          ap (λ b. text_eq a.assistant_id k || b)
            (has_id-set_details k assistant_id user_id d version now rows))
      | inr p ↦ rw p (
          ap (λ b. text_eq a.assistant_id k || b)
            (has_id-set_details k assistant_id user_id d version now rows))
    ]

pub write_details-IsVersioned :
    (w : World) (t : Tables) (assistant_id user_id : Text) (a : Assistant) (d : Details)
    (version now : ℕ) (calls : List Invalidation)
    → IsVersioned t
    → details_at assistant_id version t.versions ≡ some d
    → IsVersioned (write_details w t assistant_id user_id a d version now calls).0
unfolding write_details
write_details-IsVersioned w t assistant_id user_id a d version now calls (rows, orphans) h =
    elim (Bool-cases (clashes w assistant_id user_id d t.assistants)) [
      | inl p ↦ rw p (rows, orphans)
      | inr p ↦ elim (Bool-cases w.row_commits) [
        | inr l ↦ rw (p, l) (rows, orphans)
        | inl l ↦
            rw (p, l)
              (
                set_details-All t.versions assistant_id user_id d version now t.assistants h rows,
                λ k free. orphans k (
                    sym (has_id-set_details k assistant_id user_id d version now t.assistants)
                    ∙ free),
              )
      ]
    ]

pub has_id-find :
    (assistant_id user_id : Text) (a : Assistant) (rows : List Assistant)
    → find (is_own assistant_id user_id) rows ≡ some a
    → has_id assistant_id rows ≡ true
unfolding has_id find is_own
has_id-find assistant_id user_id a [] h = cc
has_id-find assistant_id user_id a (b ∷ rows) h =
    elim (Bool-cases (is_own assistant_id user_id b)) [
      | inl p ↦
          let here : text_eq b.assistant_id assistant_id ≡ true = and_left _ _ p in rw here refl
      | inr p ↦ ground (arith, has_id-find assistant_id user_id a rows (rw p at h))
    ]

pub update_found-IsVersioned :
    (o : Option Assistant) (w : World) (t : Tables) (assistant_id : Text)
    (request : AssistantUpdate) (config : Fields) (context : Option Fields) (user_id : Text)
    (now : ℕ)
    → find (is_own assistant_id user_id) t.assistants ≡ o
    → IsVersioned t
    → IsVersioned (update_found o w t assistant_id request config context user_id now).0
unfolding update_found
update_found-IsVersioned none w t assistant_id request config context user_id now e valid = valid
update_found-IsVersioned (some a) w t assistant_id request config context user_id now e
      (rows, orphans) =
    let d = updated_details a request config context in
    let version = new_version (max_version assistant_id t.versions) in
    let v : AssistantVersion = record {
      assistant_id = assistant_id;
      version = version;
      details = d;
      metadata = fields_or_empty request.metadata;
      created_at = now;
    } in
    let there : has_id assistant_id t.assistants ≡ true =
      has_id-find assistant_id user_id a t.assistants e in
    write_details-IsVersioned w (record t { versions = t.versions ++ v ∷ [] }) assistant_id user_id
      a d version now (one_assistant user_id assistant_id ∷ [])
      (
        All-weaken (IsCurrent t.versions) (IsCurrent (t.versions ++ v ∷ [])) t.assistants
            (IsCurrent-last v t.versions) rows,
        λ k free. elim (Bool-cases (text_eq assistant_id k)) [
          | inr other ↦ max_version_last k v t.versions other ∙ orphans k free
          | inl same ↦
              let id : assistant_id ≡ k = (text_eq_iff assistant_id k).0 same in
              cc (ap (λ i. has_id i t.assistants) id, there, free)
        ],
      )
      (named_last v t.versions (new_version_free (max_version assistant_id t.versions)))

details_at-filter :
    (id k : Text) (version : ℕ) (versions : List AssistantVersion)
    → text_eq k id ≡ false
    → details_at k version (filter (λ v. not (text_eq v.assistant_id id)) versions)
      ≡ details_at k version versions
unfolding details_at is_version
details_at-filter id k version [] h = refl
details_at-filter id k version (v ∷ versions) h = elim (Bool-cases (text_eq v.assistant_id id)) [
  | inr p ↦ rw (p, details_at-filter id k version versions h) refl
  | inl p ↦
      let same : v.assistant_id ≡ id = (text_eq_iff v.assistant_id id).0 p in
      let other : text_eq v.assistant_id k ≡ false =
        ground (arith, same, text_eq_iff v.assistant_id k, text_eq_iff k id, h) in
      rw (p, other) (details_at-filter id k version versions h)
]

max_version-filter :
    (id k : Text) (versions : List AssistantVersion)
    → max_version k (filter (λ v. not (text_eq v.assistant_id id)) versions)
      ≡ (if text_eq k id then none else max_version k versions)
unfolding max_version
max_version-filter id k [] = ground arith
max_version-filter id k (v ∷ versions) = ground (
  arith,
  max_version-filter id k versions,
  text_eq_iff v.assistant_id k,
  text_eq_iff v.assistant_id id,
  text_eq_iff k id,
)

filtered-All :
    (id : Text) (versions : List AssistantVersion) (rows : List Assistant)
    → All (IsCurrent versions) rows
    → All
        (IsCurrent (filter (λ v. not (text_eq v.assistant_id id)) versions))
        (filter (λ a. not (text_eq a.assistant_id id)) rows)
filtered-All id versions [] h = tt
filtered-All id versions (a ∷ rows) (row, h) = elim (Bool-cases (text_eq a.assistant_id id)) [
  | inl p ↦ rw p (filtered-All id versions rows h)
  | inr p ↦ rw p (
    details_at-filter id a.assistant_id a.version versions p ∙ row,
    filtered-All id versions rows h,
  )
]

has_id-filter :
    (id k : Text) (rows : List Assistant)
    → has_id k (filter (λ a. not (text_eq a.assistant_id id)) rows)
      ≡ (not (text_eq k id) && has_id k rows)
unfolding has_id
has_id-filter id k [] = ground arith
has_id-filter id k (a ∷ rows) = ground (
  arith,
  has_id-filter id k rows,
  text_eq_iff a.assistant_id k,
  text_eq_iff a.assistant_id id,
  text_eq_iff k id,
)

pub delete_found-IsVersioned :
    (o : Option Assistant) (t : Tables) (assistant_id user_id : Text)
    → IsVersioned t
    → IsVersioned (delete_found o t assistant_id user_id).0
unfolding delete_found
delete_found-IsVersioned none t assistant_id user_id valid = valid
delete_found-IsVersioned (some a) t assistant_id user_id (rows, orphans) = (
  filtered-All assistant_id t.versions t.assistants rows,
  λ k free.
      let gone : (not (text_eq k assistant_id) && has_id k t.assistants) ≡ false =
        sym (has_id-filter assistant_id k t.assistants) ∙ free in
      max_version-filter assistant_id k t.versions ∙ (elim (Bool-cases (text_eq k assistant_id)) [
        | inl p ↦ rw p refl
        | inr p ↦ rw p (orphans k (ground (arith, gone, p)))
      ]),
)
