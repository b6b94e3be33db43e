-- ===== src/Organizations/Managers.antt =====
-- Only owners make and unmake owners.
use open_langgraph_platform.Prelude.{
  ◌≡◌, refl, Bool, true, false, ◌&&◌, ◌||◌, not, Option, none, some, Text, text_eq, text_eq_iff,
  arith, Bool-cases, inl, inr, Option-cases, sym, ap, ◌∙◌,
}
use open_langgraph_platform.Organizations.{
  OrganizationRole, is_owner, is_manager, OrganizationMember, ok, find_member, get_user_role,
  role_of, allowed_role, require_role,
}
use open_langgraph_platform.Organizations.Owners.{
  Members, owners, added, add_member, changed, role_updated, update_member_role, withdrawn, removed,
  remove_member,
}
use open_langgraph_platform.Organizations.Owned.{owners_last, owners-set_role, owners-drop_member}

-- a member who is no owner, or nobody
abbrev pub is_no_owner : Option OrganizationRole → Bool
is_no_owner none = true
is_no_owner (some role) = not (is_owner role)

added_same :
    (q : OrganizationRole) (ms : Members) (org_id user_id : Text) (role : OrganizationRole)
    (requester k : Text)
    → is_owner q ≡ false
    → owners k (added (ok q) ms org_id user_id role requester).0 ≡ owners k ms
unfolding added
added_same q ms org_id user_id role requester k h = elim (Bool-cases (is_owner role)) [
  | inl p ↦ rw (h, p) refl
  | inr p ↦ elim (Option-cases (find_member org_id user_id ms)) [
    | inr (m, e) ↦ rw (h, p, e) refl
    | inl e ↦
        let new : OrganizationMember = record {
          org_id = org_id;
          user_id = user_id;
          role = role;
          invited_by = some requester;
        } in
        rw (h, p, e) (ground (arith, owners_last k new ms, p))
  ]
]

changed_same :
    (o : Option OrganizationMember) (q : OrganizationRole) (ms : Members) (org_id user_id : Text)
    (role : OrganizationRole) (k : Text)
    → find_member org_id user_id ms ≡ o
    → is_owner q ≡ false
    → owners k (changed o q ms org_id user_id role).0 ≡ owners k ms
unfolding changed
changed_same none q ms org_id user_id role k e h = refl
changed_same (some m) q ms org_id user_id role k e h =
    elim (Bool-cases (is_owner m.role || is_owner role)) [
      | inl p ↦ rw (h, p) refl
      | inr p ↦
          let old : is_owner m.role ≡ false = ground (arith, p) in
          let new : is_owner role ≡ false = ground (arith, p) in
          rw (h, old, new) (ground (arith, owners-set_role k org_id user_id role m ms e, old, new))
    ]

withdrawn_same :
    (o : Option OrganizationMember) (q : OrganizationRole) (self : Bool) (ms : Members)
    (org_id user_id k : Text)
    → find_member org_id user_id ms ≡ o
    → is_owner q ≡ false
    → ((m : OrganizationMember) → o ≡ some m → self ≡ true → is_owner m.role ≡ false)
    → owners k (withdrawn o q self ms org_id user_id).0 ≡ owners k ms
unfolding withdrawn
withdrawn_same none q self ms org_id user_id k e h own = refl
withdrawn_same (some m) q self ms org_id user_id k e h own = elim (Bool-cases (is_owner m.role)) [
  | inr p ↦ rw p (ground (arith, owners-drop_member k org_id user_id m ms e, p))
  | inl p ↦ elim (Bool-cases self) [ inl s ↦ cc (own m refl s, p) | inr s ↦ rw (h, p, s) refl ]
]

role_found :
    (ms : Members) (org_id user_id : Text) (m : OrganizationMember)
    → find_member org_id user_id ms ≡ some m
    → get_user_role ms org_id user_id ≡ some m.role
unfolding get_user_role role_of
role_found ms org_id user_id m e = ap role_of e

removed_same :
    (o : Option OrganizationRole) (ms : Members) (org_id user_id requester k : Text)
    → get_user_role ms org_id requester ≡ o
    → is_no_owner o ≡ true
    → owners k (removed o ms org_id user_id requester).0 ≡ owners k ms
unfolding removed
removed_same none ms org_id user_id requester k e h = refl
removed_same (some q) ms org_id user_id requester k e h =
    let low : is_owner q ≡ false = ground (arith, h) in
    elim (Bool-cases (not (text_eq user_id requester) && not (is_manager q))) [
      | inl p ↦ rw p refl
      | inr p ↦ rw p (
          withdrawn_same (find_member org_id user_id ms) q (text_eq user_id requester) ms org_id
            user_id k refl low
            (λ m f s.
              let same : user_id ≡ requester = (text_eq_iff user_id requester).0 s in
              let role : some m.role ≡ some q =
                sym (role_found ms org_id user_id m f) ∙ ap (get_user_role ms org_id) same ∙ e in
              let equal : m.role ≡ q = cc role in ap is_owner equal ∙ low))
    ]

add_same :
    (o : Option OrganizationRole) (ms : Members) (org_id user_id : Text) (role : OrganizationRole)
    (requester k : Text)
    → is_no_owner o ≡ true
    → (owners k (added (allowed_role is_manager o) ms org_id user_id role requester).0
        ≡ owners k ms)
      × (owners k (role_updated (allowed_role is_manager o) ms org_id user_id role).0 ≡ owners k ms)
unfolding allowed_role added role_updated
add_same none ms org_id user_id role requester k h = (refl, refl)
add_same (some q) ms org_id user_id role requester k h =
    let low : is_owner q ≡ false = ground (arith, h) in
    elim (Bool-cases (is_manager q)) [
      | inr p ↦ rw p (refl, refl)
      | inl p ↦ rw p (
        added_same q ms org_id user_id role requester k low,
        changed_same (find_member org_id user_id ms) q ms org_id user_id role k refl low,
      )
    ]

-- A user who is no owner of an organization changes the number of owners of no organization, by adding
-- a member, changing a role or removing a member: an admin can neither make nor unmake an owner.
pub managers_keep_owners :
    (ms : Members) (org_id user_id : Text) (role : OrganizationRole) (requester k : Text)
    → is_no_owner (get_user_role ms org_id requester) ≡ true
    → (owners k (add_member ms org_id user_id role requester).0 ≡ owners k ms)
      × (owners k (update_member_role ms org_id user_id role requester).0 ≡ owners k ms)
      × (owners k (remove_member ms org_id user_id requester).0 ≡ owners k ms)
unfolding add_member update_member_role remove_member require_role
managers_keep_owners ms org_id user_id role requester k h =
    let (a, u) =
      add_same (get_user_role ms org_id requester) ms org_id user_id role requester k h in
    (a, u, removed_same (get_user_role ms org_id requester) ms org_id user_id requester k refl h)
