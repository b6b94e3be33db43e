-- ===== src/Permissions/Cached.antt =====
-- What the cache of permissions answers.
use open_langgraph_platform.Prelude.{ℕ, ◌≡◌, refl, Option, none, some, List, Text, text_eq_refl}
use open_langgraph_platform.Dict.{Dict, lookup, lookup-insert, lookup-remove}
use open_langgraph_platform.Permissions.{
  Database, cache_key, answered, fresh_permissions, get_effective_permissions,
  invalidate_user_cache,
}

answered-twice :
    (o : Option (List Text)) (cache : Dict (List Text)) (db db' : Database) (user_id org_id : Text)
    (now later : ℕ)
    → lookup (cache_key user_id org_id) cache ≡ o
    → let (cache', perms) = answered o cache db user_id org_id now in
      answered (lookup (cache_key user_id org_id) cache') cache' db' user_id org_id later
      ≡ (cache', perms)
unfolding answered
answered-twice (some perms) cache db db' user_id org_id now later e = rw e refl
answered-twice none cache db db' user_id org_id now later e =
    rw
      (lookup-insert (cache_key user_id org_id) (cache_key user_id org_id)
        (fresh_permissions db user_id org_id now) cache)
      (rw (text_eq_refl (cache_key user_id org_id)) refl)

-- Once a user's permissions were answered, the same answer is given until the cache's entry goes,
-- whatever has changed in the database; after `invalidate_user_cache` the answer is the one that the
-- database gives.
pub cached_until_invalidated :
    (cache : Dict (List Text)) (db db' : Database) (user_id org_id : Text) (now later : ℕ)
    → let (cache', perms) = get_effective_permissions cache db user_id org_id now in
      (get_effective_permissions cache' db' user_id org_id later ≡ (cache', perms))
      × ((get_effective_permissions
            (invalidate_user_cache cache' user_id org_id)
            db'
            user_id
            org_id
            later).1
          ≡ fresh_permissions db' user_id org_id later)
unfolding get_effective_permissions invalidate_user_cache answered
cached_until_invalidated cache db db' user_id org_id now later = (
  answered-twice (lookup (cache_key user_id org_id) cache) cache db db' user_id org_id now later
      refl,
  rw
      (lookup-remove (cache_key user_id org_id) (cache_key user_id org_id)
        (get_effective_permissions cache db user_id org_id now).0)
      (rw (text_eq_refl (cache_key user_id org_id)) refl),
)
