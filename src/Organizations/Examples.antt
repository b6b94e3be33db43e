-- ===== src/Organizations/Examples.antt =====
-- An organization of two, and a key that is revoked.
use open_langgraph_platform.Prelude.{
  ◌≤◌, ◌≡◌, refl, true, false, none, some, List, [], ◌∷◌, Text, codes, text_eq, is_some, length,
}
use open_langgraph_platform.Value.{end}
use open_langgraph_platform.Organizations.{
  owner, admin, is_owner, is_manager, OrganizationMember, OrganizationCreate, bad_request, raise,
  ok, find_member, get_user_role, role_of, allowed_role, require_role, create_organization,
  find_org, has_slug, create_with_slug,
}
use open_langgraph_platform.Organizations.Slug.{generate_slug}
use open_langgraph_platform.Organizations.WellFormed.{is_slug, generate_slug-IsSlug}
use open_langgraph_platform.Organizations.Owners.{
  owners, add_member, update_member_role, remove_member, removed, withdrawn,
}
use open_langgraph_platform.Organizations.Managers.{is_no_owner, managers_keep_owners}
use open_langgraph_platform.Organizations.Reachable.{
  Command, create, add, remove, run, apply, no_tables, reachable-IsOwned,
}
use open_langgraph_platform.Organizations.Keys.{
  ApiKey, find_key, write_key, revoked_now, revoked, revoking, revoke_api_key, verify_api_key,
}
use open_langgraph_platform.Organizations.Revoked.{revoke_api_key-Refused}

abbrev request : OrganizationCreate
request = record {
  name = codes "Acme";
  slug = none;
  description = none;
  settings = end;
  metadata = end;
}

abbrev commands : List Command
commands =
    create true (codes "o") request (codes "a") 1
    ∷ add (codes "o") (codes "b") admin (codes "a")
    ∷ remove (codes "o") (codes "a") (codes "a")
    ∷ []

is_there : is_some (find_org (codes "o") (run (λ x. x) no_tables commands).organizations) ≡ true
unfolding find_org run apply create_organization create_with_slug has_slug text_eq generate_slug
is_there = refl

reachable-IsOwned_example : 1 ≤ owners (codes "o") (run (λ x. x) no_tables commands).members
reachable-IsOwned_example = reachable-IsOwned (λ x. x) commands refl (codes "o") is_there

abbrev founder : OrganizationMember
founder = record { org_id = codes "o"; user_id = codes "a"; role = owner; invited_by = none }

abbrev second : OrganizationMember
second = record {
  org_id = codes "o";
  user_id = codes "b";
  role = admin;
  invited_by = some (codes "a");
}

second_is_admin : is_no_owner (get_user_role (founder ∷ second ∷ []) (codes "o") (codes "b")) ≡ true
unfolding get_user_role find_member role_of is_owner text_eq
second_is_admin = refl

managers_keep_owners_example :
    (owners
        (codes "o")
        (add_member (founder ∷ second ∷ []) (codes "o") (codes "b") owner (codes "b")).0
      ≡ owners (codes "o") (founder ∷ second ∷ []))
    × (owners
          (codes "o")
          (update_member_role (founder ∷ second ∷ []) (codes "o") (codes "b") owner (codes "b")).0
        ≡ owners (codes "o") (founder ∷ second ∷ []))
    × (owners
          (codes "o")
          (remove_member (founder ∷ second ∷ []) (codes "o") (codes "b") (codes "b")).0
        ≡ owners (codes "o") (founder ∷ second ∷ []))
managers_keep_owners_example =
    managers_keep_owners (founder ∷ second ∷ []) (codes "o") (codes "b") owner (codes "b")
      (codes "o") second_is_admin

last_owner_test :
    (remove_member (founder ∷ second ∷ []) (codes "o") (codes "a") (codes "a")).1
    ≡ raise bad_request
unfolding remove_member removed get_user_role find_member role_of withdrawn owners is_owner
    is_manager text_eq
last_owner_test = refl

abbrev key : ApiKey
key = record {
  key_id = codes "k";
  org_id = codes "o";
  name = codes "ci";
  key_hash = codes "olg_x";
  key_prefix = codes "olg_x...";
  scopes = [];
  expires_at = none;
  last_used_at = none;
  created_by = codes "a";
  revoked_at = none;
}

abbrev keys_after : List ApiKey
keys_after = record key { revoked_at = some 5 } ∷ []

key_selected : find_key (λ x. text_eq x.key_hash (codes "olg_x")) (key ∷ []) ≡ some key
unfolding find_key text_eq
key_selected = refl

key_revoked :
    revoke_api_key (founder ∷ []) (key ∷ []) (codes "o") (codes "k") (codes "a") 5
    ≡ (keys_after, ok (record key { revoked_at = some 5 }))
unfolding revoke_api_key require_role allowed_role get_user_role find_member role_of revoking
    revoked find_key write_key revoked_now is_manager text_eq
key_revoked = refl

revoke_api_key-Refused_example :
    verify_api_key (λ x. x) keys_after (codes "olg_x") 9 ≡ (keys_after, none)
revoke_api_key-Refused_example =
    revoke_api_key-Refused (λ x. x) (founder ∷ []) (key ∷ []) keys_after (codes "o") (codes "k")
      (codes "a") (codes "olg_x") key (record key { revoked_at = some 5 }) 5 9 key_selected refl
      key_revoked

abbrev spaced : Text
spaced = codes "  My__Team -2024! "

generate_slug-IsSlug_example :
    (is_slug (generate_slug (λ x. x) 8 spaced) ≡ true)
    × (length (generate_slug (λ x. x) 8 spaced) ≤ 8)
generate_slug-IsSlug_example = generate_slug-IsSlug (λ x. x) 8 spaced

slug_test : generate_slug (λ x. x) 8 spaced ≡ codes "my-team"
unfolding generate_slug
slug_test = refl

-- a creation whose second transaction is lost
ownerless_test :
    let t = run (λ x. x) no_tables (create false (codes "o") request (codes "a") 1 ∷ []) in
    (is_some (find_org (codes "o") t.organizations) ≡ true) × (owners (codes "o") t.members ≡ 0)
unfolding find_org run apply create_organization create_with_slug has_slug text_eq generate_slug
    owners
ownerless_test = (refl, refl)
