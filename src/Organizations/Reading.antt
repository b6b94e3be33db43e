-- ===== src/Organizations/Reading.antt =====
-- `get_organization`, `get_organization_by_slug` and `list_user_organizations`.
use open_langgraph_platform.Prelude.{
  ◌≡◌, refl, Bool, true, false, ◌&&◌, Option, none, some, List, [], ◌∷◌, Text, text_eq, text_eq_iff,
  if◌then◌else◌, filter, any, map, is_some, arith, Bool-cases, inl, inr, ap, sym, ◌∙◌,
}
use open_langgraph_platform.Organizations.{
  Organization, OrganizationMember, OrganizationRole, not_found, Reply, ok, raise, Tables, find_org,
  find_member, role_of, get_user_role, allowed_role, require_role, any_role,
}

unfoldable pub shown_org : Option Organization → Reply Organization
shown_org none = raise not_found
shown_org (some o) = ok o

unfoldable pub get_for : Reply OrganizationRole → Tables → Text → Reply Organization
unfolding shown_org find_org
get_for (raise e) t org_id = raise e
get_for (ok role) t org_id = shown_org (find_org org_id t.organizations)

unfoldable pub get_organization : Tables → Text → Text → Reply Organization
unfolding get_for require_role any_role
get_organization t org_id user_identity =
    get_for (require_role t.members org_id user_identity any_role) t org_id

unfoldable pub find_slug : Text → List Organization → Option Organization
find_slug slug [] = none
find_slug slug (o ∷ os) = if text_eq o.slug slug then some o else find_slug slug os

unfoldable pub slug_found : Option Organization → Tables → Text → Reply Organization
unfolding require_role any_role
slug_found none t user_identity = raise not_found
slug_found (some o) t user_identity =
    elim (require_role t.members o.org_id user_identity any_role) [
      | raise e ↦ raise e
      | ok role ↦ ok o
    ]

unfoldable pub get_organization_by_slug : Tables → Text → Text → Reply Organization
unfolding find_slug slug_found
get_organization_by_slug t slug user_identity =
    slug_found (find_slug slug t.organizations) t user_identity

-- `org_ids`
unfoldable pub ids_of : Text → List OrganizationMember → List Text
ids_of user_identity ms = map (λ m. m.org_id) (filter (λ m. text_eq m.user_id user_identity) ms)

-- No ids select no rows, which is what the early return says.
unfoldable pub list_user_organizations : Tables → Text → List Organization
unfolding ids_of
list_user_organizations t user_identity =
    filter (λ o. any (text_eq o.org_id) (ids_of user_identity t.members)) t.organizations

abbrev pub is_ok {ℓ} : {A : Type ℓ} → Reply A → Bool
is_ok (ok a) = true
is_ok (raise e) = false

any-ids_of :
    (k user : Text) (ms : List OrganizationMember)
    → any (text_eq k) (ids_of user ms) ≡ is_some (find_member k user ms)
unfolding ids_of find_member
any-ids_of k user [] = refl
any-ids_of k user (m ∷ ms) =
    ground (arith, any-ids_of k user ms, text_eq_iff k m.org_id, text_eq_iff m.org_id k)

find_org_chosen :
    (p : Text → Bool) (k : Text) (os : List Organization)
    → is_some (find_org k (filter (λ o. p o.org_id) os)) ≡ (p k && is_some (find_org k os))
unfolding find_org
find_org_chosen p k [] = ground arith
find_org_chosen p k (o ∷ os) = elim (Bool-cases (text_eq o.org_id k)) [
  | inl e ↦
      let id : o.org_id ≡ k = (text_eq_iff o.org_id k).0 e in
      ground (arith, find_org_chosen p k os, ap p id, e)
  | inr e ↦ ground (arith, find_org_chosen p k os, e)
]

is_ok-get :
    (o : Option OrganizationMember) (r : Option Organization) (t : Tables) (k : Text)
    → find_org k t.organizations ≡ r
    → is_ok (get_for (allowed_role any_role (role_of o)) t k) ≡ (is_some o && is_some r)
unfolding allowed_role role_of get_for any_role shown_org
is_ok-get none r t k e = refl
is_ok-get (some m) none t k e = rw e refl
is_ok-get (some m) (some o) t k e = rw e refl

-- The list of a user's organizations and the look-up of one agree: an id is in the list of
-- `list_user_organizations` exactly when `get_organization` answers this user for it.
pub listed_iff :
    (t : Tables) (k user : Text)
    → is_some (find_org k (list_user_organizations t user)) ≡ is_ok (get_organization t k user)
unfolding list_user_organizations get_organization require_role get_user_role
listed_iff t k user =
    find_org_chosen (λ id. any (text_eq id) (ids_of user t.members)) k t.organizations
    ∙ rw (any-ids_of k user t.members) refl
    ∙ sym (is_ok-get (find_member k user t.members) (find_org k t.organizations) t k refl)
