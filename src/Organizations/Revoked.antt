-- ===== src/Organizations/Revoked.antt =====
-- What becomes of an API key that was revoked.
use open_langgraph_platform.Prelude.{
  ℕ, ◌≡◌, refl, Bool, true, ◌&&◌, Option, none, some, List, [], ◌∷◌, Text, text_eq, text_eq_iff,
  Bool-cases, inl, inr, is_some, ap, sym, ◌∙◌, and_right,
}
use open_langgraph_platform.Organizations.{
  OrganizationRole, OrganizationMember, Reply, ok, raise, is_manager, require_role,
}
use open_langgraph_platform.Organizations.Keys.{
  ApiKey, find_key, write_key, revoked_now, revoked, revoking, revoke_api_key, verified,
  verify_api_key,
}

find_key-write_key :
    (h key_id : Text) (now : ℕ) (k : ApiKey) (keys : List ApiKey)
    → find_key (λ x. text_eq x.key_hash h) keys ≡ some k
    → k.key_id ≡ key_id
    → find_key (λ x. text_eq x.key_hash h) (write_key key_id (revoked_now now) keys)
      ≡ some (revoked_now now k)
unfolding find_key write_key revoked_now
find_key-write_key h key_id now k [] e id = cc
find_key-write_key h key_id now k (x ∷ keys) e id = elim (Bool-cases (text_eq x.key_hash h)) [
  | inl p ↦
      let same : x ≡ k = cc (rw p at e) in
      let here : x.key_id ≡ key_id = ap (λ y. y.key_id) same ∙ id in
      let hit : text_eq x.key_id key_id ≡ true = (text_eq_iff x.key_id key_id).1 here in
      rw (hit, p) (ap (λ y. some (revoked_now now y)) same)
  | inr p ↦ elim (Bool-cases (text_eq x.key_id key_id)) [
    | inl q ↦ rw (q, p) (find_key-write_key h key_id now k keys (rw p at e) id)
    | inr q ↦ rw (q, p) (find_key-write_key h key_id now k keys (rw p at e) id)
  ]
]

option_eq : {A : Type 0} {a b : A} → some a ≡ some b → a ≡ b
option_eq h = cc h

revoked_stays :
    (o : Option ApiKey) (sha256 : Text → Text) (keys keys' : List ApiKey) (raw_key : Text)
    (k r : ApiKey) (now later : ℕ)
    → find_key (λ x. text_eq x.key_hash (sha256 raw_key)) keys ≡ some k
    → revoked o keys now ≡ (keys', ok r)
    → ((x : ApiKey) → o ≡ some x → x.key_id ≡ k.key_id)
    → verify_api_key sha256 keys' raw_key later ≡ (keys', none)
unfolding revoked revoked_now verify_api_key verified
revoked_stays none sha256 keys keys' raw_key k r now later e h e_id = cc
revoked_stays (some x) sha256 keys keys' raw_key k r now later e h e_id =
    elim (Bool-cases (is_some x.revoked_at)) [
      | inl p ↦ cc (rw p at h)
      | inr p ↦
          let same_keys : write_key x.key_id (revoked_now now) keys ≡ keys' =
            ap (λ q. q.0) (rw p at h) in
          let id : k.key_id ≡ x.key_id = sym (e_id x refl) in
          let found : find_key (λ y. text_eq y.key_hash (sha256 raw_key)) keys'
              ≡ some (revoked_now now k) =
            ap (find_key (λ y. text_eq y.key_hash (sha256 raw_key))) (sym same_keys)
            ∙ find_key-write_key (sha256 raw_key) x.key_id now k keys e id in
          rw found refl
    ]

find_key-test :
    (test : ApiKey → Bool) (keys : List ApiKey) (k : ApiKey)
    → find_key test keys ≡ some k
    → test k ≡ true
unfolding find_key
find_key-test test [] k e = cc
find_key-test test (x ∷ keys) k e = elim (Bool-cases (test x)) [
  | inl p ↦ ap test (sym (option_eq (rw p at e))) ∙ p
  | inr p ↦ find_key-test test keys k (rw p at e)
]

revoking_stays :
    (q : Reply OrganizationRole) (sha256 : Text → Text) (keys keys' : List ApiKey)
    (org_id key_id raw_key : Text) (k r : ApiKey) (now later : ℕ)
    → find_key (λ x. text_eq x.key_hash (sha256 raw_key)) keys ≡ some k
    → k.key_id ≡ key_id
    → revoking q keys org_id key_id now ≡ (keys', ok r)
    → verify_api_key sha256 keys' raw_key later ≡ (keys', none)
unfolding revoking
revoking_stays (raise e) sha256 keys keys' org_id key_id raw_key k r now later f id h = cc
revoking_stays (ok role) sha256 keys keys' org_id key_id raw_key k r now later f id h =
    let test : ApiKey → Bool = λ x. text_eq x.org_id org_id && text_eq x.key_id key_id in
    revoked_stays (find_key test keys) sha256 keys keys' raw_key k r now later f h (λ x e.
      (text_eq_iff x.key_id key_id).0 (and_right _ _ (find_key-test test keys x e)) ∙ sym id)

-- A revoked API key opens nothing any more: when `revoke_api_key` returns its row for the id of the row
-- that the raw key's hash selects, then `verify_api_key` of that raw key returns none, at any later
-- time, and writes nothing.
pub revoke_api_key-Refused :
    (sha256 : Text → Text) (ms : List OrganizationMember) (keys keys' : List ApiKey)
    (org_id key_id user raw_key : Text) (k r : ApiKey) (now later : ℕ)
    → find_key (λ x. text_eq x.key_hash (sha256 raw_key)) keys ≡ some k
    → k.key_id ≡ key_id
    → revoke_api_key ms keys org_id key_id user now ≡ (keys', ok r)
    → verify_api_key sha256 keys' raw_key later ≡ (keys', none)
unfolding revoke_api_key
revoke_api_key-Refused sha256 ms keys keys' org_id key_id user raw_key k r now later f id h =
    revoking_stays (require_role ms org_id user is_manager) sha256 keys keys' org_id key_id raw_key
      k r now later f id h
