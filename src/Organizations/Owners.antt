-- ===== src/Organizations/Owners.antt =====
-- `add_member`, `update_member_role` and `remove_member`, and the number of owners.
use open_langgraph_platform.Prelude.{
  ℕ, Bool, ◌&&◌, ◌||◌, not, Option, none, some, List, [], ◌∷◌, ◌++◌, Text, text_eq, if◌then◌else◌,
  filter, length, leb,
}
use open_langgraph_platform.Organizations.{
  OrganizationRole, is_owner, is_manager, OrganizationMember, bad_request, forbidden, not_found,
  conflict, Reply, ok, raise, is_member, find_member, get_user_role, require_role,
}

abbrev pub is_owner_of : Text → OrganizationMember → Bool
is_owner_of org_id m = text_eq m.org_id org_id && is_owner m.role

-- `owner_count`
unfoldable pub owners : Text → List OrganizationMember → ℕ
owners org_id ms = length (filter (is_owner_of org_id) ms)

unfoldable pub set_role :
    Text → Text → OrganizationRole → List OrganizationMember → List OrganizationMember
set_role org_id user_id role [] = []
set_role org_id user_id role (m ∷ ms) =
    if is_member org_id user_id m
    then record m { role = role } ∷ ms
    else m ∷ set_role org_id user_id role ms

unfoldable pub drop_member : Text → Text → List OrganizationMember → List OrganizationMember
drop_member org_id user_id [] = []
drop_member org_id user_id (m ∷ ms) =
    if is_member org_id user_id m then ms else m ∷ drop_member org_id user_id ms

abbrev pub Members : Type 0
Members = List OrganizationMember

-- behind the role of the requester
unfoldable pub added :
    Reply OrganizationRole
    → Members
    → Text
    → Text
    → OrganizationRole
    → Text
    → Members × Reply OrganizationMember
unfolding find_member is_owner
added (raise e) ms org_id user_id role requester = (ms, raise e)
added (ok requester_role) ms org_id user_id role requester =
    if is_owner role && not (is_owner requester_role)
    then (ms, raise forbidden)
    else elim (find_member org_id user_id ms) [
      | some existing ↦ (ms, raise conflict)
      | none ↦
          let new : OrganizationMember = record {
            org_id = org_id;
            user_id = user_id;
            role = role;
            invited_by = some requester;
          } in
          (ms ++ new ∷ [], ok new)
    ]

unfoldable pub add_member :
    Members → Text → Text → OrganizationRole → Text → Members × Reply OrganizationMember
unfolding require_role added is_manager
add_member ms org_id user_id role requester =
    added (require_role ms org_id requester is_manager) ms org_id user_id role requester

unfoldable pub changed :
    Option OrganizationMember
    → OrganizationRole
    → Members
    → Text
    → Text
    → OrganizationRole
    → Members × Reply OrganizationMember
unfolding owners set_role is_owner
changed none requester_role ms org_id user_id role = (ms, raise not_found)
changed (some m) requester_role ms org_id user_id role =
    if (is_owner m.role || is_owner role) && not (is_owner requester_role)
    then (ms, raise forbidden)
    else if is_owner m.role && not (is_owner role) && leb (owners org_id ms) 1
    then (ms, raise bad_request)
    else (set_role org_id user_id role ms, ok (record m { role = role }))

unfoldable pub role_updated :
    Reply OrganizationRole
    → Members
    → Text
    → Text
    → OrganizationRole
    → Members × Reply OrganizationMember
unfolding changed find_member
role_updated (raise e) ms org_id user_id role = (ms, raise e)
role_updated (ok requester_role) ms org_id user_id role =
    changed (find_member org_id user_id ms) requester_role ms org_id user_id role

unfoldable pub update_member_role :
    Members → Text → Text → OrganizationRole → Text → Members × Reply OrganizationMember
unfolding require_role role_updated is_manager
update_member_role ms org_id user_id role requester =
    role_updated (require_role ms org_id requester is_manager) ms org_id user_id role

unfoldable pub withdrawn :
    Option OrganizationMember
    → OrganizationRole
    → Bool
    → Members
    → Text
    → Text
    → Members × Reply (Unit {0})
unfolding owners drop_member is_owner
withdrawn none requester_role is_self ms org_id user_id = (ms, raise not_found)
withdrawn (some m) requester_role is_self ms org_id user_id =
    if is_owner m.role && (not (is_owner requester_role) && not is_self)
    then (ms, raise forbidden)
    else if is_owner m.role && leb (owners org_id ms) 1
    then (ms, raise bad_request)
    else (drop_member org_id user_id ms, ok tt)

unfoldable pub removed :
    Option OrganizationRole → Members → Text → Text → Text → Members × Reply (Unit {0})
unfolding withdrawn find_member is_manager
removed none ms org_id user_id requester = (ms, raise not_found)
removed (some requester_role) ms org_id user_id requester =
    let is_self = text_eq user_id requester in
    if not is_self && not (is_manager requester_role)
    then (ms, raise forbidden)
    else withdrawn (find_member org_id user_id ms) requester_role is_self ms org_id user_id

unfoldable pub remove_member : Members → Text → Text → Text → Members × Reply (Unit {0})
unfolding get_user_role removed
remove_member ms org_id user_id requester =
    removed (get_user_role ms org_id requester) ms org_id user_id requester
