-- ===== src/Organizations/Keys.antt =====
-- The API keys of `OrganizationService`. SHA-256 is an argument, and so is the random part of a key.
use open_langgraph_platform.Prelude.{
  ℕ, ◌+◌, ◌*◌, Bool, true, false, ◌&&◌, ◌||◌, Option, none, some, List, [], ◌∷◌, ◌++◌, Text, codes,
  text_eq, if◌then◌else◌, ltb, leb, take, filter, is_some,
}
use open_langgraph_platform.Organizations.{
  OrganizationRole, viewer, is_manager, OrganizationMember, bad_request, not_found, Reply, ok,
  raise, require_role,
}

pub record ApiKey : Type 0 where
  pub key_id : Text
  pub org_id : Text
  pub name : Text
  pub key_hash : Text
  pub key_prefix : Text
  pub scopes : List Text
  pub expires_at : Option ℕ
  pub last_used_at : Option ℕ
  pub created_by : Text
  pub revoked_at : Option ℕ

-- the raw key, its hash and its prefix
unfoldable pub generate_api_key : (Text → Text) → Text → Text × (Text × Text)
generate_api_key sha256 key_body =
    let raw_key = codes "olg_" ++ key_body in
    (raw_key, (sha256 raw_key, take 16 raw_key ++ codes "..."))

-- `if request.expires_in_days`
expiry : Option ℕ → ℕ → Option ℕ
expiry none now = none
expiry (some days) now = if leb days 0 then none else some (now + days * 86400)

unfoldable pub created :
    Reply OrganizationRole
    → (Text → Text)
    → List ApiKey
    → Text
    → Text
    → Text
    → Text
    → List Text
    → Option ℕ
    → Text
    → ℕ
    → List ApiKey × Reply Text
unfolding generate_api_key expiry
created (raise e) sha256 keys key_body key_id org_id name scopes expires_in_days user now =
    (keys, raise e)
created (ok role) sha256 keys key_body key_id org_id name scopes expires_in_days user now =
    let (raw_key, (key_hash, key_prefix)) = generate_api_key sha256 key_body in
    (
      keys
          ++ record {
            key_id = key_id;
            org_id = org_id;
            name = name;
            key_hash = key_hash;
            key_prefix = key_prefix;
            scopes = scopes;
            expires_at = expiry expires_in_days now;
            last_used_at = none;
            created_by = user;
            revoked_at = none;
          }
            ∷ [],
      ok raw_key,
    )

unfoldable pub create_api_key :
    (Text → Text)
    → List OrganizationMember
    → List ApiKey
    → Text
    → Text
    → Text
    → Text
    → List Text
    → Option ℕ
    → Text
    → ℕ
    → List ApiKey × Reply Text
unfolding require_role created is_manager
create_api_key sha256 ms keys key_body key_id org_id name scopes expires_in_days user now =
    created (require_role ms org_id user is_manager) sha256 keys key_body key_id org_id name scopes
      expires_in_days user now

can_list : OrganizationRole → Bool
can_list viewer = false
can_list role = true

unfoldable pub list_api_keys :
    List OrganizationMember → List ApiKey → Text → Text → Reply (List ApiKey)
unfolding require_role can_list
list_api_keys ms keys org_id user = elim (require_role ms org_id user can_list) [
  | raise e ↦ raise e
  | ok role ↦ ok (filter (λ k. text_eq k.org_id org_id) keys)
]

unfoldable pub find_key : (ApiKey → Bool) → List ApiKey → Option ApiKey
find_key test [] = none
find_key test (k ∷ keys) = if test k then some k else find_key test keys

-- `UPDATE … WHERE key_id`, where the id is the primary key
unfoldable pub write_key : Text → (ApiKey → ApiKey) → List ApiKey → List ApiKey
write_key key_id change [] = []
write_key key_id change (k ∷ keys) =
    let rest = write_key key_id change keys in
    if text_eq k.key_id key_id then change k ∷ rest else k ∷ rest

unfoldable pub revoked_now : ℕ → ApiKey → ApiKey
revoked_now now k = record k { revoked_at = some now }

unfoldable pub revoked : Option ApiKey → List ApiKey → ℕ → List ApiKey × Reply ApiKey
unfolding write_key revoked_now
revoked none keys now = (keys, raise not_found)
revoked (some k) keys now =
    if is_some k.revoked_at
    then (keys, raise bad_request)
    else (write_key k.key_id (revoked_now now) keys, ok (revoked_now now k))

unfoldable pub revoking :
    Reply OrganizationRole → List ApiKey → Text → Text → ℕ → List ApiKey × Reply ApiKey
unfolding find_key revoked
revoking (raise e) keys org_id key_id now = (keys, raise e)
revoking (ok role) keys org_id key_id now =
    revoked (find_key (λ k. text_eq k.org_id org_id && text_eq k.key_id key_id) keys) keys now

unfoldable pub revoke_api_key :
    List OrganizationMember → List ApiKey → Text → Text → Text → ℕ → List ApiKey × Reply ApiKey
unfolding require_role revoking is_manager
revoke_api_key ms keys org_id key_id user now =
    revoking (require_role ms org_id user is_manager) keys org_id key_id now

used_now : ℕ → ApiKey → ApiKey
used_now now k = record k { last_used_at = some now }

-- `expires_at and expires_at < now`
past : Option ℕ → ℕ → Bool
past none now = false
past (some t) now = ltb t now

unfoldable pub verified : Option ApiKey → List ApiKey → ℕ → List ApiKey × Option (Text × List Text)
unfolding write_key used_now past
verified none keys now = (keys, none)
verified (some k) keys now =
    if is_some k.revoked_at || past k.expires_at now
    then (keys, none)
    else (write_key k.key_id (used_now now) keys, some (k.org_id, k.scopes))

unfoldable pub verify_api_key :
    (Text → Text) → List ApiKey → Text → ℕ → List ApiKey × Option (Text × List Text)
unfolding find_key verified
verify_api_key sha256 keys raw_key now =
    verified (find_key (λ k. text_eq k.key_hash (sha256 raw_key)) keys) keys now
