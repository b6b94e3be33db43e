-- ===== src/PermissionSet.antt =====
-- services/permission_service.py, `_matches_permission` and `_resolve_permissions`: permissions as texts
-- such as "runs:read", "runs:*" and "*". A set is a list without order until it is sorted.
pub mod Resolve
use open_langgraph_platform.Prelude.{
  ℕ, zero, suc, Bool, true, false, ◌&&◌, ◌||◌, not, Option, none, some, List, [], ◌∷◌, ◌++◌, Text,
  codes, text_eq, starts_with, ends_with, filter, ltb, leb, ◌==◌, if◌then◌else◌, or_else,
}

-- `perm[:-1]`
all_but_last : Text → Text
all_but_last [] = []
all_but_last (c ∷ s) = elim s [ [] ↦ [] | _ ↦ c ∷ all_but_last s ]

-- what one granted permission allows
unfoldable pub grants : Text → Text → Bool
unfolding all_but_last
grants perm required =
    text_eq perm (codes "*")
    || text_eq perm required
    || (ends_with perm (codes ":*") && starts_with required (all_but_last perm))

unfoldable pub matches_permission : Text → List Text → Bool
unfolding grants
matches_permission required [] = false
matches_permission required (perm ∷ granted) =
    if grants perm required then true else matches_permission required granted

-- `str.__lt__` on texts
text_ltb : Text → Text → Bool
text_ltb s [] = false
text_ltb [] (d ∷ t) = true
text_ltb (c ∷ s) (d ∷ t) = ltb c d || ((c == d) && text_ltb s t)

-- A set is listed in order: an item that is there is not added again.
insert_item : Text → List Text → List Text
unfolding text_ltb
insert_item p [] = p ∷ []
insert_item p (q ∷ items) =
    if text_eq p q
    then q ∷ items
    else if text_ltb p q
    then p ∷ q ∷ items
    else q ∷ insert_item p items

-- `sorted` of a set
sorted : List Text → List Text
unfolding insert_item
sorted [] = []
sorted (p ∷ items) = insert_item p (sorted items)

-- one round of the loop over the denied permissions
drop_denied : Text → List Text → List Text
unfolding all_but_last
drop_denied denied perms =
    let discarded = filter (λ p. not (text_eq p denied)) perms in
    if ends_with denied (codes ":*")
    then filter (λ p. not (starts_with p (all_but_last denied))) discarded
    else discarded

resolve_denied : List Text → List Text → List Text
unfolding drop_denied sorted
resolve_denied [] perms = sorted perms
resolve_denied (denied ∷ custom_denied) perms =
    let rest = resolve_denied custom_denied (drop_denied denied perms) in
    if text_eq denied (codes "*") then [] else rest

unfoldable pub resolve_permissions : List Text → List Text → List Text → List Text
unfolding resolve_denied
resolve_permissions role_perms custom_granted custom_denied =
    resolve_denied custom_denied (role_perms ++ custom_granted)
