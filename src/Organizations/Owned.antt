-- ===== src/Organizations/Owned.antt =====
-- Every organization keeps an owner, and only owners make and unmake owners.
use open_langgraph_platform.Prelude.{
  ℕ, ◌+◌, ◌≤◌, ◌≡◌, Bool, true, false, ◌&&◌, ◌||◌, not, Option, none, some, [], ◌∷◌, ◌++◌, Text,
  text_eq, text_eq_iff, leb, arith, Bool-cases, inl, inr, Option-cases, ap,
}
use open_langgraph_platform.Organizations.{
  OrganizationRole, is_owner, OrganizationMember, Reply, ok, raise, is_member, find_member,
}
use open_langgraph_platform.Organizations.Owners.{
  Members, is_owner_of, owners, set_role, drop_member, added, changed, withdrawn,
}

-- one if the test holds
abbrev pub one_if : Bool → ℕ
one_if true = 1
one_if false = 0

pub owners_last :
    (k : Text) (m : OrganizationMember) (ms : Members)
    → owners k (ms ++ m ∷ []) ≡ owners k ms + one_if (is_owner_of k m)
unfolding owners
owners_last k m [] = ground arith
owners_last k m (n ∷ ms) = ground (arith, owners_last k m ms)

pub owners-set_role :
    (k org_id user_id : Text) (role : OrganizationRole) (m : OrganizationMember) (ms : Members)
    → find_member org_id user_id ms ≡ some m
    → owners k (set_role org_id user_id role ms) + one_if (text_eq org_id k && is_owner m.role)
      ≡ owners k ms + one_if (text_eq org_id k && is_owner role)
unfolding owners set_role find_member
owners-set_role k org_id user_id role m [] h = cc
owners-set_role k org_id user_id role m (n ∷ ms) h =
    elim (Bool-cases (is_member org_id user_id n)) [
      | inl p ↦
          let same : n ≡ m = cc (rw p at h) in
          let here : n.org_id ≡ org_id = (text_eq_iff n.org_id org_id).0 (ground (arith, p)) in
          rw p (ground (arith, here, ap (λ x. is_owner x.role) same))
      | inr p ↦ rw p (ground (arith, owners-set_role k org_id user_id role m ms (rw p at h)))
    ]

pub owners-drop_member :
    (k org_id user_id : Text) (m : OrganizationMember) (ms : Members)
    → find_member org_id user_id ms ≡ some m
    → owners k (drop_member org_id user_id ms) + one_if (text_eq org_id k && is_owner m.role)
      ≡ owners k ms
unfolding owners drop_member find_member
owners-drop_member k org_id user_id m [] h = cc
owners-drop_member k org_id user_id m (n ∷ ms) h = elim (Bool-cases (is_member org_id user_id n)) [
  | inl p ↦
      let same : n ≡ m = cc (rw p at h) in
      let here : n.org_id ≡ org_id = (text_eq_iff n.org_id org_id).0 (ground (arith, p)) in
      rw p (ground (arith, here, ap (λ x. is_owner x.role) same))
  | inr p ↦ rw p (ground (arith, owners-drop_member k org_id user_id m ms (rw p at h)))
]

-- What a change of the members does to the owners of each organization.
abbrev pub KeepsOne : Members → Members → Type 0
KeepsOne ms ms' = (k : Text) → 1 ≤ owners k ms → 1 ≤ owners k ms'

added_last-KeepsOne : (m : OrganizationMember) (ms : Members) → KeepsOne ms (ms ++ m ∷ [])
added_last-KeepsOne m ms = λ k h. omega (arith, owners_last k m ms, h)

pub added-KeepsOne :
    (r : Reply OrganizationRole) (ms : Members) (org_id user_id : Text) (role : OrganizationRole)
    (requester : Text)
    → KeepsOne ms (added r ms org_id user_id role requester).0
unfolding added
added-KeepsOne (raise e) ms org_id user_id role requester = λ k h. h
added-KeepsOne (ok q) ms org_id user_id role requester =
    elim (Bool-cases (is_owner role && not (is_owner q))) [
      | inl p ↦ rw p (λ k h. h)
      | inr p ↦ elim (Option-cases (find_member org_id user_id ms)) [
        | inr (m, e) ↦ rw (p, e) (λ k h. h)
        | inl e ↦
            rw (p, e)
              (added_last-KeepsOne
                (record {
                  org_id = org_id;
                  user_id = user_id;
                  role = role;
                  invited_by = some requester;
                })
                ms)
      ]
    ]

pub changed-KeepsOne :
    (o : Option OrganizationMember) (q : OrganizationRole) (ms : Members) (org_id user_id : Text)
    (role : OrganizationRole)
    → find_member org_id user_id ms ≡ o
    → KeepsOne ms (changed o q ms org_id user_id role).0
unfolding changed
changed-KeepsOne none q ms org_id user_id role e = λ k h. h
changed-KeepsOne (some m) q ms org_id user_id role e = λ k h.
    elim (Bool-cases ((is_owner m.role || is_owner role) && not (is_owner q))) [
      | inl a ↦ rw a h
      | inr a ↦
          elim (Bool-cases (is_owner m.role && not (is_owner role) && leb (owners org_id ms) 1)) [
            | inl b ↦ rw (a, b) h
            | inr b ↦
                rw (a, b)
                  (ground (
                    arith,
                    owners-set_role k org_id user_id role m ms e,
                    text_eq_iff org_id k,
                    h,
                    b,
                  ))
          ]
    ]

pub withdrawn-KeepsOne :
    (o : Option OrganizationMember) (q : OrganizationRole) (self : Bool) (ms : Members)
    (org_id user_id : Text)
    → find_member org_id user_id ms ≡ o
    → KeepsOne ms (withdrawn o q self ms org_id user_id).0
unfolding withdrawn
withdrawn-KeepsOne none q self ms org_id user_id e = λ k h. h
withdrawn-KeepsOne (some m) q self ms org_id user_id e = λ k h.
    elim (Bool-cases (is_owner m.role && (not (is_owner q) && not self))) [
      | inl a ↦ rw a h
      | inr a ↦ elim (Bool-cases (is_owner m.role && leb (owners org_id ms) 1)) [
        | inl b ↦ rw (a, b) h
        | inr b ↦
            rw (a, b)
              (ground
                (arith, owners-drop_member k org_id user_id m ms e, text_eq_iff org_id k, h, b))
      ]
    ]
