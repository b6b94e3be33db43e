-- ===== src/Assistants/Versions.antt =====
-- The version that a row of an assistant names.
use open_langgraph_platform.Prelude.{
  ℕ, ◌≡◌, refl, Bool, true, false, not, Option, none, some, List, [], ◌∷◌, ◌++◌, Text, text_eq,
  text_eq_refl, if◌then◌else◌, ◌==◌, ==_iff, leb, is_some, arith, Bool-cases, inl, inr, ◌∙◌, All,
}
use open_langgraph_platform.Assistants.{Assistant, AssistantVersion, Tables}
use open_langgraph_platform.Assistants.Create.{has_id}
use open_langgraph_platform.Assistants.Update.{
  max_with, max_version, new_version, is_version, details_at,
}

-- A row shows the details of the version that it names.
abbrev pub IsCurrent : List AssistantVersion → Assistant → Type 0
IsCurrent versions a = details_at a.assistant_id a.version versions ≡ some a.details

-- An id without a row has no versions.
abbrev pub HasRows : List Assistant → List AssistantVersion → Type 0
HasRows rows versions = (k : Text) → has_id k rows ≡ false → max_version k versions ≡ none

abbrev pub IsVersioned : Tables → Type 0
IsVersioned t = All (IsCurrent t.versions) t.assistants × HasRows t.assistants t.versions

-- larger than the greatest
abbrev pub is_free : Option ℕ → ℕ → Bool
is_free none n = true
is_free (some m) n = not (leb n m)

is_free_with :
    (version n : ℕ) (o : Option ℕ)
    → is_free (max_with version o) n ≡ true
    → ((version == n) ≡ false) × (is_free o n ≡ true)
is_free_with version n none h = (ground arith, refl)
is_free_with version n (some m) h = (ground arith, ground arith)

details_at_free :
    (k : Text) (n : ℕ) (versions : List AssistantVersion)
    → is_free (max_version k versions) n ≡ true
    → details_at k n versions ≡ none
unfolding details_at max_version is_version
details_at_free k n [] h = refl
details_at_free k n (v ∷ versions) h = elim (Bool-cases (text_eq v.assistant_id k)) [
  | inr p ↦ rw p (details_at_free k n versions (rw p at h))
  | inl p ↦
      let (other, rest) = is_free_with v.version n (max_version k versions) (rw p at h) in
      rw (p, other) (details_at_free k n versions rest)
]

details_at_last :
    (k : Text) (n : ℕ) (v : AssistantVersion) (versions : List AssistantVersion)
    → details_at k n (versions ++ v ∷ []) ≡ (
        if is_some (details_at k n versions)
        then details_at k n versions
        else if is_version k n v
        then some v.details
        else none)
unfolding details_at
details_at_last k n v [] = refl
details_at_last k n v (w ∷ versions) = elim (Bool-cases (is_version k n w)) [
  | inl p ↦ rw p refl
  | inr p ↦ rw p (details_at_last k n v versions)
]

pub max_version_last :
    (k : Text) (v : AssistantVersion) (versions : List AssistantVersion)
    → text_eq v.assistant_id k ≡ false
    → max_version k (versions ++ v ∷ []) ≡ max_version k versions
unfolding max_version
max_version_last k v [] h = rw h refl
max_version_last k v (w ∷ versions) h = rw (max_version_last k v versions h) refl

pub new_version_free : (o : Option ℕ) → is_free o (new_version o) ≡ true
unfolding new_version
new_version_free none = refl
new_version_free (some m) = ground (arith, Bool-cases (leb m 0))

-- Appending a version whose number is free keeps what the rows name, and its own row names it.
pub IsCurrent-last :
    (v : AssistantVersion) (versions : List AssistantVersion) (a : Assistant)
    → IsCurrent versions a
    → IsCurrent (versions ++ v ∷ []) a
IsCurrent-last v versions a h = details_at_last a.assistant_id a.version v versions ∙ rw h refl

pub named_last :
    (v : AssistantVersion) (versions : List AssistantVersion)
    → is_free (max_version v.assistant_id versions) v.version ≡ true
    → details_at v.assistant_id v.version (versions ++ v ∷ []) ≡ some v.details
unfolding is_version
named_last v versions h =
    details_at_last v.assistant_id v.version v versions
    ∙ rw
        (
          details_at_free v.assistant_id v.version versions h,
          text_eq_refl v.assistant_id,
          (==_iff v.version v.version).1 refl,
        )
        refl
