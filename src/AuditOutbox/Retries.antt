-- ===== src/AuditOutbox/Retries.antt =====
-- `LRURetryCache`: failure counts by record, least recently counted first.
use open_langgraph_platform.Prelude.{
  ℕ, ◌+◌, ◌≤◌, ◌≡◌, refl, ◌⊎◌, false, Option, none, some, [], ◌∷◌, ◌++◌, Text, text_eq, text_eq_iff,
  text_eq_refl, if◌then◌else◌, ltb, length, or_else, is_some, arith, inl, inr, ap,
}
use open_langgraph_platform.Dict.{
  Dict, lookup, insert, remove, has, lookup-insert, lookup-remove, IsUnique, insert-IsUnique,
  remove-IsUnique,
}

pub record LruRetryCache : Type 0 where
  pub cache : Dict ℕ
  pub max_size : ℕ

unfoldable pub init : ℕ → LruRetryCache
init max_size = record { cache = []; max_size = max_size }

-- `while len(cache) > max_size: cache.popitem(last=False)`
unfoldable pub evict : ℕ → Dict ℕ → Dict ℕ
evict max_size [] = []
evict max_size (entry ∷ cache) =
    let rest = evict max_size cache in
    if ltb max_size (length (entry ∷ cache)) then rest else entry ∷ cache

-- the cache after the `if`, by the count that was found
unfoldable pub touched : Option ℕ → Text → LruRetryCache → Dict ℕ
unfolding evict insert remove
touched (some n) key c = remove key c.cache ++ (key, n + 1) ∷ []
touched none key c = evict c.max_size (insert key 1 c.cache)

-- The answer is `none` for the `KeyError` when the new entry was evicted at once.
unfoldable pub increment : Text → LruRetryCache → Option ℕ × LruRetryCache
unfolding lookup touched
increment key c =
    let cache = touched (lookup key c.cache) key c in (lookup key cache, record c { cache = cache })

unfoldable pub get : Text → LruRetryCache → ℕ
unfolding lookup
get key c = or_else (lookup key c.cache) 0

unfoldable pub clear : Text → LruRetryCache → LruRetryCache
unfolding remove
clear key c = record c { cache = remove key c.cache }

unfoldable pub reset : LruRetryCache → LruRetryCache
reset c = record c { cache = [] }

unfoldable pub len : LruRetryCache → ℕ
len c = length c.cache

pub record IsValid (c : LruRetryCache) : Type 0 where
  pub bounded : length c.cache ≤ c.max_size
  pub unique : IsUnique c.cache

lookup-append :
    (k : Text) (c d : Dict ℕ)
    → lookup k (c ++ d) ≡ (if is_some (lookup k c) then lookup k c else lookup k d)
unfolding lookup
lookup-append k [] d = refl
lookup-append k ((j, n) ∷ c) d = ground (arith, lookup-append k c d)

length-remove-le : (k : Text) (c : Dict ℕ) → length (remove k c) ≤ length c
unfolding remove
length-remove-le k [] = omega arith
length-remove-le k ((j, n) ∷ c) = ground (arith, length-remove-le k c)

length-remove :
    (k : Text) (n : ℕ) (c : Dict ℕ) → lookup k c ≡ some n → length (remove k c) + 1 ≤ length c
unfolding remove lookup
length-remove k n [] e = cc
length-remove k n ((j, m) ∷ c) e = ground (arith, length-remove k n c, length-remove-le k c)

length-append_one : (c : Dict ℕ) (e : Text × ℕ) → length (c ++ e ∷ []) ≡ length c + 1
length-append_one [] e = omega arith
length-append_one (x ∷ c) e = omega (arith, length-append_one c e)

length-evict-le : (m : ℕ) (c : Dict ℕ) → length (evict m c) ≤ m
unfolding evict
length-evict-le m [] = omega arith
length-evict-le m (e ∷ c) = ground (arith, length-evict-le m c)

-- An evicted key reads as absent; the others keep their counts.
lookup-evict :
    (k : Text) (m : ℕ) (c : Dict ℕ)
    → IsUnique c
    → (lookup k (evict m c) ≡ none) ⊎ (lookup k (evict m c) ≡ lookup k c)
unfolding evict lookup
lookup-evict k m [] u = inl refl
lookup-evict k m ((j, n) ∷ c) u = elim (lookup-evict k m c u.1) [
  | inl p ↦ ground (arith, p)
  | inr p ↦ ground (arith, p, text_eq_iff j k)
]

evict-IsUnique : (m : ℕ) (c : Dict ℕ) → IsUnique c → IsUnique (evict m c)
unfolding evict
evict-IsUnique m [] u = tt
evict-IsUnique m ((j, n) ∷ c) u = ground (arith, evict-IsUnique m c u.1)

append_new-IsUnique :
    (k : Text) (n : ℕ) (c : Dict ℕ) → IsUnique c → has k c ≡ false → IsUnique (c ++ (k, n) ∷ [])
unfolding lookup
append_new-IsUnique k n [] u h = (refl, tt)
append_new-IsUnique k n ((j, m) ∷ c) u h = ground (
  arith,
  append_new-IsUnique k n c u.1,
  lookup-append j c ((k, n) ∷ []),
  text_eq_iff j k,
  text_eq_iff k j,
)

touched-IsValid :
    (o : Option ℕ) (key : Text) (c : LruRetryCache)
    → lookup key c.cache ≡ o
    → IsValid c
    → IsValid (record c { cache = touched o key c })
unfolding touched
touched-IsValid none key c e v = record {
  bounded = length-evict-le c.max_size (insert key 1 c.cache);
  unique =
      evict-IsUnique c.max_size (insert key 1 c.cache) (insert-IsUnique key 1 c.cache v.unique);
}
touched-IsValid (some n) key c e v = record {
  bounded = omega (
    arith,
    length-append_one (remove key c.cache) (key, n + 1),
    length-remove key n c.cache e,
    v.bounded,
  );
  unique =
      append_new-IsUnique key (n + 1) (remove key c.cache) (remove-IsUnique key c.cache v.unique)
        (ground (arith, lookup-remove key key c.cache, text_eq_refl key));
}

pub increment-IsValid : (key : Text) (c : LruRetryCache) → IsValid c → IsValid (increment key c).1
unfolding increment
increment-IsValid key c v = touched-IsValid (lookup key c.cache) key c refl v

pub clear-IsValid : (key : Text) (c : LruRetryCache) → IsValid c → IsValid (clear key c)
unfolding clear
clear-IsValid key c v = record {
  bounded = omega (arith, length-remove-le key c.cache, v.bounded);
  unique = remove-IsUnique key c.cache v.unique;
}

pub init-IsValid : (m : ℕ) → IsValid (init m)
unfolding init
init-IsValid m = record { bounded = omega arith; unique = tt }

-- Counting another record never raises a count: it stays, or its entry is evicted.
touched-get-le :
    (o : Option ℕ) (k key : Text) (c : LruRetryCache)
    → IsValid c
    → text_eq key k ≡ false
    → or_else (lookup k (touched o key c)) 0 ≤ or_else (lookup k c.cache) 0
unfolding touched lookup
touched-get-le (some n) k key c v h =
    ground
      (arith, lookup-append k (remove key c.cache) ((key, n + 1) ∷ []), lookup-remove key k c.cache)
touched-get-le none k key c v h =
    elim (lookup-evict k c.max_size (insert key 1 c.cache)
      (insert-IsUnique key 1 c.cache v.unique)) [
        | inl p ↦ ground (arith, p)
        | inr p ↦ ground (arith, p, lookup-insert key k 1 c.cache)
      ]

pub get-increment_other :
    (k key : Text) (c : LruRetryCache)
    → IsValid c
    → text_eq key k ≡ false
    → get k (increment key c).1 ≤ get k c
unfolding get increment
get-increment_other k key c v h = touched-get-le (lookup key c.cache) k key c v h

pub get-clear : (k key : Text) (c : LruRetryCache) → get k (clear key c) ≤ get k c
unfolding get clear
get-clear k key c = ground (arith, lookup-remove key k c.cache)

evict_fits : (m : ℕ) (c : Dict ℕ) → length c ≤ m → evict m c ≡ c
unfolding evict
evict_fits m [] h = refl
evict_fits m (e ∷ c) h = ground arith

insert_absent :
    (key : Text) (n : ℕ) (c : Dict ℕ) → has key c ≡ false → insert key n c ≡ c ++ (key, n) ∷ []
unfolding insert lookup
insert_absent key n [] h = refl
insert_absent key n ((j, m) ∷ c) h = ground (arith, insert_absent key n c)

lookup_one : (key : Text) (n : ℕ) → lookup key ((key, n) ∷ []) ≡ some n
unfolding lookup
lookup_one key n = ground (arith, text_eq_refl key)

-- An entry at the end survives the eviction, if there is room for one.
lookup-evict_last :
    (key : Text) (m : ℕ) (c : Dict ℕ)
    → has key c ≡ false
    → 1 ≤ m
    → lookup key (evict m (c ++ (key, 1) ∷ [])) ≡ some 1
unfolding evict lookup
lookup-evict_last key m [] h one = ground (arith, text_eq_refl key)
lookup-evict_last key m ((j, n) ∷ c) h one =
    ground (arith, lookup-evict_last key m c, lookup-append key c ((key, 1) ∷ []), lookup_one key 1)

touched_lem :
    (o : Option ℕ) (key : Text) (c : LruRetryCache)
    → lookup key c.cache ≡ o
    → 1 ≤ c.max_size
    → lookup key (touched o key c) ≡ some (or_else o 0 + 1)
unfolding touched
touched_lem none key c e one =
    let absent : has key c.cache ≡ false = ground arith in
    rw (insert_absent key 1 c.cache absent) (lookup-evict_last key c.max_size c.cache absent one)
touched_lem (some n) key c e one = ground (
  arith,
  lookup-append key (remove key c.cache) ((key, n + 1) ∷ []),
  lookup-remove key key c.cache,
  text_eq_refl key,
  lookup_one key (n + 1),
)

-- A cache that can hold an entry counts: `increment` answers one more than `get` did, and does not
-- raise; the count of another record does not grow, and the cache stays within its size with every
-- record at most once.
pub increment_lem :
    (key k : Text) (c : LruRetryCache)
    → IsValid c
    → 1 ≤ c.max_size
    → text_eq key k ≡ false
    → let (answer, c') = increment key c in
      (answer ≡ some (get key c + 1))
      × (get key c' ≡ get key c + 1)
      × (get k c' ≤ get k c)
      × IsValid c'
unfolding increment get
increment_lem key k c v one h =
    let counted = touched_lem (lookup key c.cache) key c refl one in
    (
      counted,
      ap (λ o. or_else o 0) counted,
      touched-get-le (lookup key c.cache) k key c v h,
      touched-IsValid (lookup key c.cache) key c refl v,
    )
