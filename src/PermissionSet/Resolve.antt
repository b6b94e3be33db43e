-- ===== src/PermissionSet/Resolve.antt =====
-- Which permissions a user has in effect.
use open_langgraph_platform.Prelude.{
  ◌≡◌, refl, ap, ◌∙◌, Bool, true, false, ◌&&◌, ◌||◌, not, List, [], ◌∷◌, ◌++◌, arith, Text, codes,
  text_eq, text_eq_iff, starts_with, filter, any, any-append, Bool-cases, inl, inr,
}
use open_langgraph_platform.PermissionSet.{
  all_but_last, grants, matches_permission, insert_item, sorted, drop_denied, resolve_denied,
  resolve_permissions,
}

-- `p in perms`
abbrev pub member : Text → List Text → Bool
member p perms = any (λ q. text_eq q p) perms

-- One of the permissions grants `p`.
abbrev pub covered : Text → List Text → Bool
covered p perms = any (λ q. grants q p) perms

member-insert_item :
    (p q : Text) (items : List Text)
    → member p (insert_item q items) ≡ (text_eq q p || member p items)
unfolding insert_item
member-insert_item p q [] = ground arith
member-insert_item p q (r ∷ items) =
    ground (arith, member-insert_item p q items, text_eq_iff q r, text_eq_iff q p, text_eq_iff r p)

member-sorted : (p : Text) (items : List Text) → member p (sorted items) ≡ member p items
unfolding sorted
member-sorted p [] = refl
member-sorted p (q ∷ items) =
    ground (arith, member-insert_item p q (sorted items), member-sorted p items)

-- A filter that depends on the item only.
member-filter :
    (f : Text → Bool) (p : Text) (items : List Text)
    → member p (filter f items) ≡ (member p items && f p)
member-filter f p [] = refl
member-filter f p (q ∷ items) =
    ground
      (arith, member-filter f p items, λ (e : text_eq q p ≡ true). ap f ((text_eq_iff q p).0 e))

-- A round takes out what the denied permission grants; "*" grants everything.
member-drop_denied :
    (denied p : Text) (perms : List Text)
    → text_eq denied (codes "*") ≡ false
    → member p (drop_denied denied perms) ≡ (member p perms && not (grants denied p))
unfolding drop_denied grants
member-drop_denied denied p perms h = ground (
  arith,
  member-filter (λ q. not (text_eq q denied)) p perms,
  member-filter (λ q. not (starts_with q (all_but_last denied))) p
      (filter (λ q. not (text_eq q denied)) perms),
  text_eq_iff p denied,
  text_eq_iff denied p,
)

member-resolve_denied :
    (p : Text) (custom_denied perms : List Text)
    → member p (resolve_denied custom_denied perms)
      ≡ (member p perms && not (covered p custom_denied))
unfolding resolve_denied
member-resolve_denied p [] perms = member-sorted p perms ∙ ground arith
member-resolve_denied p (denied ∷ custom_denied) perms =
    elim (Bool-cases (text_eq denied (codes "*"))) [
      | inl e ↦ rw e (unfold grants in ground (arith, e))
      | inr n ↦ rw n (
          member-resolve_denied p custom_denied (drop_denied denied perms)
          ∙ ground (arith, member-drop_denied denied p perms n))
    ]

-- A permission is in effect exactly if the user's role or a custom permission names it and no custom
-- denial covers it: by its name, by a prefix "…:*" or by "*".
pub member-resolve_permissions :
    (p : Text) (role_perms custom_granted custom_denied : List Text)
    → member p (resolve_permissions role_perms custom_granted custom_denied)
      ≡ ((member p role_perms || member p custom_granted) && not (covered p custom_denied))
unfolding resolve_permissions
member-resolve_permissions p role_perms custom_granted custom_denied =
    member-resolve_denied p custom_denied (role_perms ++ custom_granted)
    ∙ ap (λ b. b && not (covered p custom_denied))
        (any-append (λ q. text_eq q p) role_perms custom_granted)

matches-member :
    (required w : Text) (perms : List Text)
    → member w perms ≡ true
    → grants w required ≡ true
    → matches_permission required perms ≡ true
unfolding matches_permission
matches-member required w [] h g = cc
matches-member required w (perm ∷ perms) h g = ground (
  arith,
  λ (k : member w perms ≡ true). matches-member required w perms k g,
  λ (e : text_eq perm w ≡ true). ap (λ q. grants q required) ((text_eq_iff perm w).0 e),
)

-- A wildcard that is granted defeats a denial of one of the permissions that it covers: a user with a
-- wildcard, which itself no denial covers, passes the check for each permission that the wildcard
-- grants, also for one that is denied by its name.
pub wildcard_survives_denial :
    (w required : Text) (role_perms custom_granted custom_denied : List Text)
    → (member w role_perms || member w custom_granted) ≡ true
    → covered w custom_denied ≡ false
    → grants w required ≡ true
    → matches_permission required (resolve_permissions role_perms custom_granted custom_denied)
      ≡ true
wildcard_survives_denial w required role_perms custom_granted custom_denied h n g =
    matches-member required w (resolve_permissions role_perms custom_granted custom_denied)
      (member-resolve_permissions w role_perms custom_granted custom_denied ∙ ground (arith, h, n))
      g
