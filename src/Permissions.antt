-- ===== src/Permissions.antt =====
-- services/permission_service.py and the system roles of models/rbac.py: the permissions that a
-- user has in an organization. The database is its tables, where at most one row fits each read (a
-- second one is an error of the database layer); the cache is a dict whose expired entries are gone.
pub mod Cached
mod Examples
use open_langgraph_platform.Prelude.{
  ℕ, zero, suc, Bool, true, false, ◌&&◌, ◌||◌, not, Option, none, some, List, [], ◌∷◌, ◌++◌, Text,
  codes, text_eq, starts_with, ends_with, filter, ltb, leb, ◌==◌, if◌then◌else◌, or_else,
}
use open_langgraph_platform.PermissionSet.{matches_permission, resolve_permissions}
use open_langgraph_platform.Dict.{Dict, lookup, insert, remove}

abbrev pub system_roles : Dict (List Text)
system_roles =
    (codes "owner", codes "*" ∷ [])
    ∷ (
      codes "admin",
      codes "assistants:*"
          ∷ codes "threads:*"
          ∷ codes "runs:*"
          ∷ codes "store:*"
          ∷ codes "crons:*"
          ∷ codes "organization:read"
          ∷ codes "organization:update"
          ∷ codes "organization:manage_members"
          ∷ codes "audit:read"
          ∷ codes "audit:export"
          ∷ codes "quotas:read"
          ∷ codes "quotas:update"
          ∷ codes "api_keys:*"
          ∷ [],
    )
    ∷ (
      codes "developer",
      codes "assistants:*"
          ∷ codes "threads:*"
          ∷ codes "runs:*"
          ∷ codes "store:read"
          ∷ codes "store:write"
          ∷ codes "crons:*"
          ∷ codes "organization:read"
          ∷ codes "quotas:read"
          ∷ [],
    )
    ∷ (
      codes "viewer",
      codes "assistants:read"
          ∷ codes "threads:read"
          ∷ codes "runs:read"
          ∷ codes "store:read"
          ∷ codes "crons:read"
          ∷ codes "organization:read"
          ∷ codes "quotas:read"
          ∷ [],
    )
    ∷ (
      codes "api_user",
      codes "assistants:read"
          ∷ codes "threads:read"
          ∷ codes "threads:write"
          ∷ codes "runs:read"
          ∷ codes "runs:create"
          ∷ codes "store:read"
          ∷ codes "store:write"
          ∷ [],
    )
    ∷ []

pub record Member : Type 0 where
  pub org_id : Text
  pub user_id : Text
  pub role : Text

-- a role without an organization serves all of them
pub record RoleDefinition : Type 0 where
  pub org_id : Option Text
  pub name : Text
  pub permissions : List Text

pub record CustomPermissions : Type 0 where
  pub user_id : Text
  pub org_id : Text
  pub granted : List Text
  pub denied : List Text
  pub expires_at : Option ℕ

pub record Database : Type 0 where
  pub members : List Member
  pub roles : List RoleDefinition
  pub customs : List CustomPermissions

-- `row if row else "viewer"`
or_viewer : Text → Text
or_viewer [] = codes "viewer"
or_viewer role = role

unfoldable pub get_user_role : List Member → Text → Text → Text
unfolding or_viewer
get_user_role [] user_id org_id = codes "viewer"
get_user_role (m ∷ members) user_id org_id =
    if text_eq m.org_id org_id && text_eq m.user_id user_id
    then or_viewer m.role
    else get_user_role members user_id org_id

serves : Option Text → Text → Bool
serves none org_id = true
serves (some o) org_id = text_eq o org_id

viewer_permissions : List Text
unfolding lookup
viewer_permissions = or_else (lookup (codes "viewer") system_roles) []

-- A definition with no permissions counts as missing.
defined_permissions : List RoleDefinition → Text → Text → List Text
unfolding serves viewer_permissions
defined_permissions [] org_id role_name = viewer_permissions
defined_permissions (r ∷ roles) org_id role_name =
    if serves r.org_id org_id && text_eq r.name role_name
    then elim r.permissions [ [] ↦ viewer_permissions | perms ↦ perms ]
    else defined_permissions roles org_id role_name

unfoldable pub get_role_permissions : List RoleDefinition → Text → Text → List Text
unfolding lookup defined_permissions
get_role_permissions roles org_id role_name =
    or_else (lookup role_name system_roles) (defined_permissions roles org_id role_name)

-- `row.expires_at and row.expires_at <= now`
has_expired : Option ℕ → ℕ → Bool
has_expired none now = false
has_expired (some t) now = leb t now

unfoldable pub get_custom_permissions :
    List CustomPermissions → Text → Text → ℕ → List Text × List Text
unfolding has_expired
get_custom_permissions [] user_id org_id now = ([], [])
get_custom_permissions (c ∷ customs) user_id org_id now =
    if text_eq c.user_id user_id && text_eq c.org_id org_id
    then (if has_expired c.expires_at now then ([], []) else (c.granted, c.denied))
    else get_custom_permissions customs user_id org_id now

-- what `get_effective_permissions` works out from the database
unfoldable pub fresh_permissions : Database → Text → Text → ℕ → List Text
unfolding get_user_role get_role_permissions get_custom_permissions resolve_permissions
fresh_permissions db user_id org_id now =
    let role_name = get_user_role db.members user_id org_id in
    let (granted, denied) = get_custom_permissions db.customs user_id org_id now in
    resolve_permissions (get_role_permissions db.roles org_id role_name) granted denied

-- The cache keeps the effective permissions, by user and organization.
abbrev pub cache_key : Text → Text → Text
cache_key user_id org_id = codes "perms:user:" ++ (user_id ++ (codes ":org:" ++ org_id))

answered :
    Option (List Text)
    → Dict (List Text)
    → Database
    → Text
    → Text
    → ℕ
    → Dict (List Text) × List Text
unfolding fresh_permissions
answered (some perms) cache db user_id org_id now = (cache, perms)
answered none cache db user_id org_id now =
    let perms = fresh_permissions db user_id org_id now in
    (insert (cache_key user_id org_id) perms cache, perms)

unfoldable pub get_effective_permissions :
    Dict (List Text) → Database → Text → Text → ℕ → Dict (List Text) × List Text
unfolding answered
get_effective_permissions cache db user_id org_id now =
    answered (lookup (cache_key user_id org_id) cache) cache db user_id org_id now

unfoldable pub check_permission :
    Dict (List Text) → Database → Text → Text → ℕ → Text → Dict (List Text) × Bool
unfolding get_effective_permissions matches_permission
check_permission cache db user_id org_id now required =
    let (cache', perms) = get_effective_permissions cache db user_id org_id now in
    (cache', matches_permission required perms)

unfoldable pub invalidate_user_cache : Dict (List Text) → Text → Text → Dict (List Text)
invalidate_user_cache cache user_id org_id = remove (cache_key user_id org_id) cache

unfoldable pub invalidate_role_cache :
    List Member → Dict (List Text) → Text → Text → Dict (List Text)
unfolding invalidate_user_cache
invalidate_role_cache [] cache org_id role_name = cache
invalidate_role_cache (m ∷ members) cache org_id role_name =
    let invalidated = invalidate_user_cache cache m.user_id org_id in
    invalidate_role_cache members
      (if text_eq m.org_id org_id && text_eq m.role role_name then invalidated else cache) org_id
      role_name
