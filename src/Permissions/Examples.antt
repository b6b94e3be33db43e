-- ===== src/Permissions/Examples.antt =====
-- A developer with custom permissions.
use open_langgraph_platform.Prelude.{
  ◌≡◌, refl, true, false, ◌&&◌, ◌||◌, not, List, [], ◌∷◌, Text, codes, text_eq, starts_with,
  ends_with,
}
use open_langgraph_platform.PermissionSet.{grants, matches_permission, resolve_permissions}
use open_langgraph_platform.Permissions.{Database}
use open_langgraph_platform.PermissionSet.Resolve.{
  member, covered, member-resolve_permissions, wildcard_survives_denial,
}

abbrev role_perms : List Text
role_perms = codes "runs:*" ∷ codes "store:read" ∷ []

abbrev denied : List Text
denied = codes "runs:delete" ∷ codes "store:*" ∷ []

member-resolve_permissions_example :
    member (codes "store:read") (resolve_permissions role_perms (codes "audit:read" ∷ []) denied)
    ≡ ((member (codes "store:read") role_perms
          || member (codes "store:read") (codes "audit:read" ∷ []))
        && not (covered (codes "store:read") denied))
member-resolve_permissions_example =
    member-resolve_permissions (codes "store:read") role_perms (codes "audit:read" ∷ []) denied

resolve_test :
    resolve_permissions role_perms (codes "audit:read" ∷ []) denied
    ≡ codes "audit:read" ∷ codes "runs:*" ∷ []
unfolding resolve_permissions text_eq starts_with ends_with
resolve_test = refl

wildcard_granted : (member (codes "runs:*") role_perms || member (codes "runs:*") []) ≡ true
unfolding text_eq
wildcard_granted = refl

wildcard_uncovered : covered (codes "runs:*") denied ≡ false
unfolding grants text_eq starts_with ends_with
wildcard_uncovered = refl

wildcard_covers : grants (codes "runs:*") (codes "runs:delete") ≡ true
unfolding grants text_eq starts_with ends_with
wildcard_covers = refl

wildcard_survives_denial_example :
    matches_permission (codes "runs:delete") (resolve_permissions role_perms [] denied) ≡ true
wildcard_survives_denial_example =
    wildcard_survives_denial (codes "runs:*") (codes "runs:delete") role_perms [] denied
      wildcard_granted wildcard_uncovered wildcard_covers

abbrev before : Database
before = record {
  members = record { org_id = codes "o"; user_id = codes "u"; role = codes "developer" } ∷ [];
  roles = [];
  customs = [];
}

-- the user has become a viewer
abbrev changed : Database
changed = record before {
  members = record { org_id = codes "o"; user_id = codes "u"; role = codes "viewer" } ∷ [];
}
