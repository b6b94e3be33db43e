-- ===== src/RateLimiter/Cleaning.antt =====
-- What the clean-up of expired entries keeps.
use open_langgraph_platform.Prelude.{
  ℕ, zero, suc, ◌/◌, ◌≡◌, refl, ◌∙◌, Bool, false, Option, none, some, List, [], ◌∷◌, arith, Text,
  text_eq, text_eq_iff, any, take, length, ltb, Bool-cases, inl, inr,
}
use open_langgraph_platform.Dict.{
  Dict, lookup, remove, lookup-remove, IsUnique, insert-IsUnique, remove-IsUnique,
}
use open_langgraph_platform.RateLimiter.{
  InMemoryRateLimiter, expired, expired_keys, remove_keys, cleanup_expired, cleaned,
  check_and_increment,
}

-- `key in keys`
abbrev listed : Text → List Text → Bool
listed key keys = any (λ k. text_eq k key) keys

lookup-remove_keys :
    (keys : List Text) (counters : Dict (ℕ × ℕ)) (key : Text)
    → listed key keys ≡ false
    → lookup key (remove_keys keys counters) ≡ lookup key counters
unfolding remove_keys
lookup-remove_keys [] counters key h = refl
lookup-remove_keys (k ∷ keys) counters key h =
    ground (arith, lookup-remove_keys keys (remove k counters) key, lookup-remove k key counters)

remove_keys-IsUnique :
    (keys : List Text) (counters : Dict (ℕ × ℕ))
    → IsUnique counters
    → IsUnique (remove_keys keys counters)
unfolding remove_keys
remove_keys-IsUnique [] counters u = u
remove_keys-IsUnique (k ∷ keys) counters u =
    remove_keys-IsUnique keys (remove k counters) (remove-IsUnique k counters u)

listed-take :
    (n : ℕ) (keys : List Text) (key : Text)
    → listed key keys ≡ false
    → listed key (take n keys) ≡ false
listed-take zero keys key h = refl
listed-take (suc n) [] key h = refl
listed-take (suc n) (k ∷ keys) key h = ground (arith, listed-take n keys key)

abbrev pub expired_at : ℕ → Option (ℕ × ℕ) → Bool
expired_at now none = false
expired_at now (some e) = expired now e.1

listed-expired_keys :
    (now : ℕ) (counters : Dict (ℕ × ℕ)) (key : Text)
    → IsUnique counters
    → listed key (expired_keys now counters) ≡ expired_at now (lookup key counters)
unfolding expired_keys lookup
listed-expired_keys now [] key u = refl
listed-expired_keys now ((k, e) ∷ counters) key u =
    ground (arith, listed-expired_keys now counters key u.1, text_eq_iff k key)

-- An entry that is not expired survives the clean-up.
pub lookup-cleaned :
    (l : InMemoryRateLimiter) (now : ℕ) (key : Text)
    → IsUnique l.counters
    → expired_at now (lookup key l.counters) ≡ false
    → lookup key (cleaned l now) ≡ lookup key l.counters
unfolding cleaned cleanup_expired
lookup-cleaned l now key u h = elim (Bool-cases (ltb l.max_keys (length l.counters))) [
  | inr p ↦ rw p
  | inl p ↦ rw p (
      lookup-remove_keys (take (length l.counters / 2) (expired_keys now l.counters)) l.counters key
        (listed-take (length l.counters / 2) (expired_keys now l.counters) key
          (listed-expired_keys now l.counters key u ∙ h)))
]

cleaned-IsUnique :
    (l : InMemoryRateLimiter) (now : ℕ) → IsUnique l.counters → IsUnique (cleaned l now)
unfolding cleaned cleanup_expired
cleaned-IsUnique l now u = elim (Bool-cases (ltb l.max_keys (length l.counters))) [
  | inr p ↦ rw p u
  | inl p ↦ rw p (
      remove_keys-IsUnique (take (length l.counters / 2) (expired_keys now l.counters)) l.counters
        u)
]

pub check_and_increment-IsUnique :
    (l : InMemoryRateLimiter) (key : Text) (limit window now : ℕ)
    → IsUnique l.counters
    → IsUnique (check_and_increment l key limit window now).0.counters
unfolding check_and_increment
check_and_increment-IsUnique l key limit window now u =
    insert-IsUnique key _ (cleaned l now) (cleaned-IsUnique l now u)
