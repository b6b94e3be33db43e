-- ===== src/Organizations/Reachable.antt =====
-- Every sequence of operations, from empty tables.
use open_langgraph_platform.Prelude.{
  Bool, ℕ, ◌≤◌, ◌≡◌, refl, true, false, ◌&&◌, ◌||◌, not, Option, none, some, List, [], ◌∷◌, ◌++◌,
  Text, text_eq, text_eq_iff, filter, arith, and_left, and_right, Bool-cases, inl, inr, is_some,
  sym, ap, ◌∙◌,
}
use open_langgraph_platform.Organizations.{
  OrganizationRole, owner, is_owner, is_manager, Organization, OrganizationMember,
  OrganizationCreate, OrganizationUpdate, Reply, ok, raise, Tables, find_member, get_user_role,
  require_role, find_org, has_slug, slug_or, create_with_slug, create_organization, replace_org,
  updated_org, written_org, updating, update_organization, dropped_org, deleting,
  delete_organization,
}
use open_langgraph_platform.Organizations.Slug.{generate_slug}
use open_langgraph_platform.Organizations.Owners.{
  Members, owners, add_member, role_updated, update_member_role, removed, remove_member,
}
use open_langgraph_platform.Organizations.Owned.{
  owners_last, added-KeepsOne, changed-KeepsOne, withdrawn-KeepsOne,
}

-- the operations that write, with the ids and times that they get; whether the second
-- transaction of a creation lands
pub data Command : Type 0 where
  create : Bool → Text → OrganizationCreate → Text → ℕ → Command
  update : Text → OrganizationUpdate → Text → ℕ → Command
  delete : Text → Text → Command
  add : Text → Text → OrganizationRole → Text → Command
  change_role : Text → Text → OrganizationRole → Text → Command
  remove : Text → Text → Text → Command

unfoldable pub apply : (Text → Text) → Tables → Command → Tables
unfolding create_organization update_organization delete_organization add_member update_member_role
    remove_member
apply nfkd t (create commits org_id request user now) =
    (create_organization nfkd commits t org_id request user now).0
apply nfkd t (update org_id request user now) = (update_organization t org_id request user now).0
apply nfkd t (delete org_id user) = (delete_organization t org_id user).0
apply nfkd t (add org_id user_id role user) = record t {
  members = (add_member t.members org_id user_id role user).0;
}
apply nfkd t (change_role org_id user_id role user) = record t {
  members = (update_member_role t.members org_id user_id role user).0;
}
apply nfkd t (remove org_id user_id user) = record t {
  members = (remove_member t.members org_id user_id user).0;
}

unfoldable pub run : (Text → Text) → Tables → List Command → Tables
unfolding apply
run nfkd t [] = t
run nfkd t (c ∷ commands) = run nfkd (apply nfkd t c) commands

-- Every organization has an owner.
abbrev pub IsOwned : Tables → Type 0
IsOwned t = (k : Text) → is_some (find_org k t.organizations) ≡ true → 1 ≤ owners k t.members

find_org_last :
    (k : Text) (o : Organization) (os : List Organization)
    → is_some (find_org k (os ++ o ∷ [])) ≡ (is_some (find_org k os) || text_eq o.org_id k)
unfolding find_org
find_org_last k o [] = ground arith
find_org_last k o (p ∷ os) = ground (arith, find_org_last k o os)

find_org-replace_org :
    (k org_id : Text) (new o : Organization) (os : List Organization)
    → find_org org_id os ≡ some o
    → new.org_id ≡ o.org_id
    → is_some (find_org k (replace_org org_id new os)) ≡ is_some (find_org k os)
unfolding find_org replace_org
find_org-replace_org k org_id new o [] h e = cc
find_org-replace_org k org_id new o (p ∷ os) h e = elim (Bool-cases (text_eq p.org_id org_id)) [
  | inl t ↦
      let same : p ≡ o = cc (rw t at h) in
      let id : new.org_id ≡ p.org_id = e ∙ sym (ap (λ q. q.org_id) same) in
      rw (t, id) (ground arith)
  | inr t ↦ rw t (ground (arith, find_org-replace_org k org_id new o os (rw t at h) e))
]

find_org-filter :
    (k org_id : Text) (os : List Organization)
    → is_some (find_org k (filter (λ o. not (text_eq o.org_id org_id)) os)) ≡ true
    → (text_eq k org_id ≡ false) × (is_some (find_org k os) ≡ true)
unfolding find_org
find_org-filter k org_id [] h = cc
find_org-filter k org_id (o ∷ os) h =
    ground
      (arith, find_org-filter k org_id os, text_eq_iff o.org_id k, text_eq_iff o.org_id org_id, h)

owners-filter :
    (k org_id : Text) (ms : Members)
    → text_eq k org_id ≡ false
    → owners k (filter (λ m. not (text_eq m.org_id org_id)) ms) ≡ owners k ms
unfolding owners
owners-filter k org_id [] h = refl
owners-filter k org_id (m ∷ ms) h =
    ground
      (arith, owners-filter k org_id ms h, text_eq_iff m.org_id k, text_eq_iff m.org_id org_id, h)

create-IsOwned :
    (t : Tables) (org_id : Text) (request : OrganizationCreate) (slug user : Text) (now : ℕ)
    → IsOwned t
    → IsOwned (create_with_slug true t org_id request slug user now).0
unfolding create_with_slug is_owner
create-IsOwned t org_id request [] user now v = v
create-IsOwned t org_id request (c ∷ slug) user now v =
    elim (Bool-cases (has_slug (c ∷ slug) t.organizations)) [
      | inl p ↦ rw p v
      | inr p ↦ rw p (λ k h.
          let first : OrganizationMember = record {
            org_id = org_id;
            user_id = user;
            role = owner;
            invited_by = none;
          } in
          ground (
            arith,
            owners_last k first t.members,
            v k,
            find_org_last k
                (record {
                  org_id = org_id;
                  name = request.name;
                  slug = c ∷ slug;
                  description = request.description;
                  settings = request.settings;
                  metadata = request.metadata;
                  updated_at = now;
                })
                t.organizations,
            h,
          ))
    ]

updated-IsOwned :
    (t : Tables) (org_id : Text) (o : Option Organization) (request : OrganizationUpdate) (now : ℕ)
    → find_org org_id t.organizations ≡ o
    → IsOwned t
    → IsOwned (written_org t org_id o request now).0
unfolding written_org updated_org
updated-IsOwned t org_id none request now e v = v
updated-IsOwned t org_id (some o) request now e v = λ k h.
    v k
      (sym (find_org-replace_org k org_id (updated_org request now o) o t.organizations e refl) ∙ h)

dropped-IsOwned :
    (t : Tables) (org_id : Text) (o : Option Organization)
    → IsOwned t
    → IsOwned (dropped_org t org_id o).0
unfolding dropped_org
dropped-IsOwned t org_id none v = v
dropped-IsOwned t org_id (some o) v = λ k h.
    let (other, there) = find_org-filter k org_id t.organizations h in
    rw (owners-filter k org_id t.members other) (v k there)

updating-IsOwned :
    (r : Reply OrganizationRole) (t : Tables) (org_id : Text) (request : OrganizationUpdate)
    (now : ℕ)
    → IsOwned t
    → IsOwned (updating r t org_id request now).0
unfolding updating
updating-IsOwned (raise e) t org_id request now v = v
updating-IsOwned (ok role) t org_id request now v =
    updated-IsOwned t org_id (find_org org_id t.organizations) request now refl v

deleting-IsOwned :
    (r : Reply OrganizationRole) (t : Tables) (org_id : Text)
    → IsOwned t
    → IsOwned (deleting r t org_id).0
unfolding deleting
deleting-IsOwned (raise e) t org_id v = v
deleting-IsOwned (ok role) t org_id v = dropped-IsOwned t org_id (find_org org_id t.organizations) v

role_updated-IsOwned :
    (r : Reply OrganizationRole) (t : Tables) (org_id user_id : Text) (role : OrganizationRole)
    → IsOwned t
    → IsOwned (record t { members = (role_updated r t.members org_id user_id role).0 })
unfolding role_updated
role_updated-IsOwned (raise e) t org_id user_id role v = v
role_updated-IsOwned (ok q) t org_id user_id role v = λ k h.
    changed-KeepsOne (find_member org_id user_id t.members) q t.members org_id user_id role refl k
      (v k h)

removed-IsOwned :
    (o : Option OrganizationRole) (t : Tables) (org_id user_id user : Text)
    → IsOwned t
    → IsOwned (record t { members = (removed o t.members org_id user_id user).0 })
unfolding removed
removed-IsOwned none t org_id user_id user v = v
removed-IsOwned (some q) t org_id user_id user v = λ k h.
    elim (Bool-cases (not (text_eq user_id user) && not (is_manager q))) [
      | inl p ↦ rw p (v k h)
      | inr p ↦ rw p (
          withdrawn-KeepsOne (find_member org_id user_id t.members) q (text_eq user_id user)
            t.members org_id user_id refl k (v k h))
    ]

-- The second transaction of a creation lands.
abbrev pub completes : Command → Bool
completes (create commits org_id request user now) = commits
completes c = true

abbrev pub all_complete : List Command → Bool
all_complete [] = true
all_complete (c ∷ commands) = completes c && all_complete commands

apply-IsOwned :
    (nfkd : Text → Text) (t : Tables) (c : Command)
    → completes c ≡ true
    → IsOwned t
    → IsOwned (apply nfkd t c)
unfolding apply create_organization update_organization delete_organization add_member
    update_member_role remove_member
apply-IsOwned nfkd t (create false org_id request user now) e v = cc
apply-IsOwned nfkd t (create true org_id request user now) e v =
    create-IsOwned t org_id request (slug_or request.slug (generate_slug nfkd 100 request.name))
      user now v
apply-IsOwned nfkd t (update org_id request user now) e v =
    updating-IsOwned (require_role t.members org_id user is_manager) t org_id request now v
apply-IsOwned nfkd t (delete org_id user) e v =
    deleting-IsOwned (require_role t.members org_id user is_owner) t org_id v
apply-IsOwned nfkd t (add org_id user_id role user) e v = λ k h.
    added-KeepsOne (require_role t.members org_id user is_manager) t.members org_id user_id role
      user k (v k h)
apply-IsOwned nfkd t (change_role org_id user_id role user) e v =
    role_updated-IsOwned (require_role t.members org_id user is_manager) t org_id user_id role v
apply-IsOwned nfkd t (remove org_id user_id user) e v =
    removed-IsOwned (get_user_role t.members org_id user) t org_id user_id user v

run-IsOwned :
    (nfkd : Text → Text) (t : Tables) (commands : List Command)
    → all_complete commands ≡ true
    → IsOwned t
    → IsOwned (run nfkd t commands)
unfolding run
run-IsOwned nfkd t [] h v = v
run-IsOwned nfkd t (c ∷ commands) h v =
    run-IsOwned nfkd (apply nfkd t c) commands (and_right (completes c) (all_complete commands) h)
      (apply-IsOwned nfkd t c (and_left (completes c) (all_complete commands) h) v)

abbrev pub no_tables : Tables
no_tables = record { organizations = []; members = [] }

-- After any sequence of operations by any users, from empty tables, in which every creation lands both of
-- its transactions, each organization that is there has a member with the role of owner. The operations
-- run one after the other.
pub reachable-IsOwned :
    (nfkd : Text → Text) (commands : List Command)
    → all_complete commands ≡ true
    → IsOwned (run nfkd no_tables commands)
unfolding find_org
reachable-IsOwned nfkd commands h = run-IsOwned nfkd no_tables commands h (λ k h. cc)
