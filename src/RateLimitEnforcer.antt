-- ===== src/RateLimitEnforcer.antt =====
-- core/rate_limit_enforcer.py: `RateLimitEnforcer`, a sliding-window log per key in a sorted set of
-- Redis. Times are milliseconds. The registered script and the plain commands do the same to the set,
-- so one step stands for both. Whether the cache is there, whether a call of Redis raises, the time and
-- the random member are arguments.
pub mod Sliding
pub mod Admitted
pub mod Check
pub mod Refusals
mod Examples
use open_langgraph_platform.Prelude.{
  ℕ, zero, suc, ◌+◌, ◌-◌, ◌*◌, ◌≡◌, Bool, true, false, ◌&&◌, not, Option, none, some, List, [], ◌∷◌,
  ◌++◌, Text, codes, text_eq, if◌then◌else◌, ltb, leb, filter, length,
}
use open_langgraph_platform.Dict.{Dict, lookup, insert, remove}
use open_langgraph_platform.RateLimitRules.{is_given}

-- a member and its score
abbrev pub Entry : Type 0
Entry = ℕ × Text

-- a sorted set and the time at which its key expires
pub record Zset : Type 0 where
  pub members : List Entry
  pub expires_at : ℕ

abbrev pub Store : Type 0
Store = Dict Zset

-- what a command finds in the key
unfoldable pub read : ℕ → Option Zset → List Entry
read now none = []
read now (some z) = if leb z.expires_at now then [] else z.members

-- scores above `now_ms - window_seconds * 1000`
abbrev pub in_window : ℕ → ℕ → Entry → Bool
in_window window_ms now e = ltb now (e.0 + window_ms)

-- `ZREMRANGEBYSCORE key -inf window_start`
unfoldable pub trim : ℕ → ℕ → List Entry → List Entry
trim window_ms now members = filter (in_window window_ms now) members

-- `ZADD key now member`, where a member that is there changes its score
unfoldable pub zadd : ℕ → Text → List Entry → List Entry
zadd now member members = filter (λ e. not (text_eq e.1 member)) members ++ (now, member) ∷ []

-- the trimmed key, if there is one
unfoldable pub kept : Option Zset → Text → List Entry → Store → Store
kept none key members store = store
kept (some z) key members store = insert key (record z { members = members }) store

unfoldable pub window_step : Option Zset → Store → Text → ℕ → ℕ → ℕ → Text → Store × (ℕ × Bool)
unfolding read trim zadd kept
window_step found store key window_seconds limit now member =
    let entries = trim (window_seconds * 1000) now (read now found) in
    let count = length entries in
    if ltb count limit
    then (
      insert key
          (record {
            members = zadd now member entries;
            expires_at = now + (window_seconds + 60) * 1000;
          })
          store,
      (count + 1, true),
    )
    else (kept found key entries store, (count, false))

-- `_fail_open` is true from the start and nothing changes it.
abbrev fail_open : Bool
fail_open = true

pub data Redis : Type 0 where
  serves unavailable raises : Redis

unfoldable pub sliding_window_check : Redis → Store → Text → ℕ → ℕ → ℕ → Text → Store × (ℕ × Bool)
unfolding window_step lookup
sliding_window_check serves store key window_seconds limit now member =
    window_step (lookup key store) store key window_seconds limit now member
sliding_window_check _ store key window_seconds limit now member =
    (store, if fail_open then (0, true) else (limit, false))

-- the last part of `_build_redis_key`
subject : Option Text → Option Text → Option Text → List Text
unfolding is_given
subject endpoint user_id api_key_id =
    let given : Option Text → Text = λ o. elim o [ none ↦ [] | some t ↦ t ] in
    if is_given user_id
    then (codes "u:" ++ given user_id) ∷ []
    else if is_given api_key_id
    then (codes "k:" ++ given api_key_id) ∷ []
    else if is_given endpoint
    then (codes "e:" ++ given endpoint) ∷ []
    else []

-- `":".join(parts)`
join_parts : List Text → Text
join_parts [] = []
join_parts (p ∷ []) = p
join_parts (p ∷ q ∷ parts) = p ++ (codes ":" ++ join_parts (q ∷ parts))

unfoldable pub build_redis_key : Text → Text → Option Text → Option Text → Option Text → Text
unfolding subject join_parts
build_redis_key rule_id org_id endpoint user_id api_key_id =
    join_parts (codes "rl_sw" ∷ rule_id ∷ org_id ∷ subject endpoint user_id api_key_id)

-- `get_current_usage`, which trims the set that it counts
unfoldable pub get_current_usage : Redis → Store → Text → ℕ → ℕ → Store × ℕ
unfolding read trim kept lookup
get_current_usage serves store key window_seconds now =
    let entries = trim (window_seconds * 1000) now (read now (lookup key store)) in
    (kept (lookup key store) key entries store, length entries)
get_current_usage _ store key window_seconds now = (store, 0)

unfoldable pub reset_counter : Redis → Store → Text → Store × Bool
unfolding remove
reset_counter serves store key = (remove key store, true)
reset_counter _ store key = (store, false)
