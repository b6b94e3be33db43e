-- ===== src/Organizations.antt =====
-- services/organization_service.py and models/organization.py: organizations, their members and roles.
-- Each operation runs by itself; ids and times are arguments. A unique index keeps a user to one row in
-- an organization, so that a statement on a member concerns the first row that fits.
pub mod Keys
pub mod Slug
pub mod WellFormed
pub mod Owners
pub mod Owned
pub mod Managers
pub mod Revoked
pub mod Reading
pub mod Reachable
mod Examples
use open_langgraph_platform.Prelude.{
  ℕ, zero, suc, ◌+◌, Bool, true, false, ◌&&◌, ◌||◌, not, Option, none, some, List, [], ◌∷◌, ◌++◌,
  Text, codes, text_eq, if◌then◌else◌, filter, length, any, leb, or_else, map,
}
use open_langgraph_platform.Organizations.Slug.{generate_slug}
use open_langgraph_platform.Value.{Fields, end, field, set_field}

pub data OrganizationRole : Type 0 where
  owner admin member viewer : OrganizationRole

unfoldable pub is_owner : OrganizationRole → Bool
is_owner owner = true
is_owner _ = false

-- `role in [OWNER, ADMIN]`
unfoldable pub is_manager : OrganizationRole → Bool
is_manager owner = true
is_manager admin = true
is_manager _ = false

any_role : OrganizationRole → Bool
any_role role = true

pub record Organization : Type 0 where
  pub org_id : Text
  pub name : Text
  pub slug : Text
  pub description : Option Text
  pub settings : Fields
  pub metadata : Fields
  pub updated_at : ℕ

pub record OrganizationMember : Type 0 where
  pub org_id : Text
  pub user_id : Text
  pub role : OrganizationRole
  pub invited_by : Option Text

pub data HttpError : Type 0 where
  bad_request forbidden not_found conflict database_error : HttpError

pub data Reply {ℓ} (A : Type ℓ) : Type ℓ where
  ok : A → Reply A
  raise : HttpError → Reply A

pub record Tables : Type 0 where
  pub organizations : List Organization
  pub members : List OrganizationMember

abbrev pub is_member : Text → Text → OrganizationMember → Bool
is_member org_id user_id m = text_eq m.org_id org_id && text_eq m.user_id user_id

unfoldable pub find_member : Text → Text → List OrganizationMember → Option OrganizationMember
find_member org_id user_id [] = none
find_member org_id user_id (m ∷ ms) =
    if is_member org_id user_id m then some m else find_member org_id user_id ms

unfoldable pub role_of : Option OrganizationMember → Option OrganizationRole
role_of none = none
role_of (some m) = some m.role

unfoldable pub get_user_role : List OrganizationMember → Text → Text → Option OrganizationRole
unfolding find_member role_of
get_user_role ms org_id user_id = role_of (find_member org_id user_id ms)

-- by the role that was found
unfoldable pub allowed_role :
    (OrganizationRole → Bool) → Option OrganizationRole → Reply OrganizationRole
allowed_role min_roles none = raise not_found
allowed_role min_roles (some role) = if min_roles role then ok role else raise forbidden

unfoldable pub require_role :
    List OrganizationMember → Text → Text → (OrganizationRole → Bool) → Reply OrganizationRole
unfolding get_user_role allowed_role
require_role ms org_id user_id min_roles = allowed_role min_roles (get_user_role ms org_id user_id)

unfoldable pub find_org : Text → List Organization → Option Organization
find_org org_id [] = none
find_org org_id (o ∷ os) = if text_eq o.org_id org_id then some o else find_org org_id os

unfoldable pub has_slug : Text → List Organization → Bool
has_slug slug os = any (λ o. text_eq o.slug slug) os

pub record OrganizationCreate : Type 0 where
  pub name : Text
  pub slug : Option Text
  pub description : Option Text
  pub settings : Fields
  pub metadata : Fields

-- By the slug. The organization and its owner's row are two transactions, and `commits` says whether the
-- second one lands; the first one either lands or nothing happens.
unfoldable pub create_with_slug :
    Bool → Tables → Text → OrganizationCreate → Text → Text → ℕ → Tables × Reply Organization
unfolding has_slug
create_with_slug commits t org_id request [] user_identity now = (t, raise bad_request)
create_with_slug commits t org_id request (c ∷ slug) user_identity now =
    if has_slug (c ∷ slug) t.organizations
    then (t, raise conflict)
    else let org : Organization = record {
      org_id = org_id;
      name = request.name;
      slug = c ∷ slug;
      description = request.description;
      settings = request.settings;
      metadata = request.metadata;
      updated_at = now;
    } in
      let founder : OrganizationMember = record {
        org_id = org_id;
        user_id = user_identity;
        role = owner;
        invited_by = none;
      } in
      (
        record {
          organizations = t.organizations ++ org ∷ [];
          members = if commits then t.members ++ founder ∷ [] else t.members;
        },
        if commits then ok org else raise database_error,
      )

-- `slug or generated`
abbrev pub slug_or : Option Text → Text → Text
slug_or none generated = generated
slug_or (some []) generated = generated
slug_or (some (c ∷ slug)) generated = c ∷ slug

unfoldable pub create_organization :
    (Text → Text)
    → Bool
    → Tables
    → Text
    → OrganizationCreate
    → Text
    → ℕ
    → Tables × Reply Organization
unfolding create_with_slug
create_organization nfkd commits t org_id request user_identity now =
    create_with_slug commits t org_id request
      (slug_or request.slug (generate_slug nfkd 100 request.name)) user_identity now

-- `{**a, **b}`
merge_fields : Fields → Fields → Fields
unfolding set_field
merge_fields a end = a
merge_fields a (field k v b) = merge_fields (set_field k v a) b

pub record OrganizationUpdate : Type 0 where
  pub name : Option Text
  pub description : Option Text
  pub settings : Option Fields
  pub metadata : Option Fields

unfoldable pub updated_org : OrganizationUpdate → ℕ → Organization → Organization
unfolding merge_fields
updated_org u now o = record o {
  name = or_else u.name o.name;
  description = elim u.description [ none ↦ o.description | some d ↦ some d ];
  settings = elim u.settings [ none ↦ o.settings | some s ↦ merge_fields o.settings s ];
  metadata = elim u.metadata [ none ↦ o.metadata | some s ↦ merge_fields o.metadata s ];
  updated_at = now;
}

unfoldable pub replace_org : Text → Organization → List Organization → List Organization
replace_org org_id new [] = []
replace_org org_id new (o ∷ os) =
    if text_eq o.org_id org_id then new ∷ os else o ∷ replace_org org_id new os

unfoldable pub written_org :
    Tables → Text → Option Organization → OrganizationUpdate → ℕ → Tables × Reply Organization
unfolding updated_org replace_org
written_org t org_id none request now = (t, raise not_found)
written_org t org_id (some o) request now =
    let new = updated_org request now o in
    (record t { organizations = replace_org org_id new t.organizations }, ok new)

unfoldable pub updating :
    Reply OrganizationRole → Tables → Text → OrganizationUpdate → ℕ → Tables × Reply Organization
unfolding find_org written_org
updating (raise e) t org_id request now = (t, raise e)
updating (ok role) t org_id request now =
    written_org t org_id (find_org org_id t.organizations) request now

unfoldable pub update_organization :
    Tables → Text → OrganizationUpdate → Text → ℕ → Tables × Reply Organization
unfolding require_role updating is_manager
update_organization t org_id request user_identity now =
    updating (require_role t.members org_id user_identity is_manager) t org_id request now

-- The rows of the members go with the organization's.
unfoldable pub dropped_org : Tables → Text → Option Organization → Tables × Reply (Unit {0})
dropped_org t org_id none = (t, raise not_found)
dropped_org t org_id (some o) = (
  record {
    organizations = filter (λ o. not (text_eq o.org_id org_id)) t.organizations;
    members = filter (λ m. not (text_eq m.org_id org_id)) t.members;
  },
  ok tt,
)

unfoldable pub deleting : Reply OrganizationRole → Tables → Text → Tables × Reply (Unit {0})
unfolding find_org dropped_org
deleting (raise e) t org_id = (t, raise e)
deleting (ok role) t org_id = dropped_org t org_id (find_org org_id t.organizations)

unfoldable pub delete_organization : Tables → Text → Text → Tables × Reply (Unit {0})
unfolding require_role deleting is_owner
delete_organization t org_id user_identity =
    deleting (require_role t.members org_id user_identity is_owner) t org_id

unfoldable pub list_members : Tables → Text → Text → Reply (List OrganizationMember)
unfolding require_role any_role
list_members t org_id user_identity = elim (require_role t.members org_id user_identity any_role) [
  | raise e ↦ raise e
  | ok role ↦ ok (filter (λ m. text_eq m.org_id org_id) t.members)
]
