-- ===== src/Dict.antt =====
-- Python's `dict` with string keys, in insertion order: a list of entries. Writing a key that is
-- there keeps its place; a new key goes to the end.
use open_langgraph_platform.Prelude.{
  ◌≡◌, refl, Bool, false, Option, none, some, List, [], ◌∷◌, arith, Text, text_eq, text_eq_iff,
  text_eq_refl, true, if◌then◌else◌, ◌||◌, is_some,
}

abbrev pub Dict {ℓ} : Type ℓ → Type ℓ
Dict V = List (Text × V)

module _ {ℓ} {V : Type ℓ} where
  -- `d.get(k)`
  unfoldable pub lookup : Text → Dict V → Option V
  lookup k [] = none
  lookup k ((j, v) ∷ d) = if text_eq j k then some v else lookup k d

  -- `d[k] = v`
  unfoldable pub insert : Text → V → Dict V → Dict V
  insert k v [] = (k, v) ∷ []
  insert k v ((j, w) ∷ d) = if text_eq j k then (j, v) ∷ d else (j, w) ∷ insert k v d

  -- `d.pop(k, None)`
  unfoldable pub remove : Text → Dict V → Dict V
  remove k [] = []
  remove k ((j, v) ∷ d) = if text_eq j k then remove k d else (j, v) ∷ remove k d

  -- `k in d`
  abbrev pub has : Text → Dict V → Bool
  has k d = is_some (lookup k d)

  abbrev pub keys : Dict V → List Text
  keys [] = []
  keys ((j, v) ∷ d) = j ∷ keys d

  pub lookup-insert :
      (k j : Text) (v : V) (d : Dict V)
      → lookup j (insert k v d) ≡ (if text_eq k j then some v else lookup j d)
  unfolding lookup insert
  lookup-insert k j v [] = refl
  lookup-insert k j v ((i, w) ∷ d) =
      ground (arith, text_eq_iff k j, text_eq_iff i k, text_eq_iff i j, lookup-insert k j v d)

  pub lookup-remove :
      (k j : Text) (d : Dict V) → lookup j (remove k d) ≡ (if text_eq k j then none else lookup j d)
  unfolding lookup remove
  lookup-remove k j [] = ground arith
  lookup-remove k j ((i, w) ∷ d) =
      ground (arith, text_eq_iff k j, text_eq_iff i k, text_eq_iff i j, lookup-remove k j d)

pub ruleset dict_laws = (lookup-insert, lookup-remove)

module _ {ℓ} {V : Type ℓ} where
  -- No key stands twice: what holds of every Python dict.
  abbrev pub IsUnique : Dict V → Type 0
  IsUnique [] = Unit
  IsUnique ((j, v) ∷ d) = (has j d ≡ false) × IsUnique d

  has-insert : (k j : Text) (v : V) (d : Dict V) → has j (insert k v d) ≡ (text_eq k j || has j d)
  has-insert k j v d = ground (arith, lookup-insert k j v d)

  pub has-remove-false : (k j : Text) (d : Dict V) → has j d ≡ false → has j (remove k d) ≡ false
  has-remove-false k j d h = ground (arith, lookup-remove k j d)

  pub insert-IsUnique : (k : Text) (v : V) (d : Dict V) → IsUnique d → IsUnique (insert k v d)
  unfolding insert
  insert-IsUnique k v [] u = (unfold lookup in refl, tt)
  insert-IsUnique k v ((j, w) ∷ d) u =
      ground
        (arith, insert-IsUnique k v d u.1, has-insert k j v d, text_eq_iff j k, text_eq_iff k j)

  pub remove-IsUnique : (k : Text) (d : Dict V) → IsUnique d → IsUnique (remove k d)
  unfolding remove
  remove-IsUnique k [] u = tt
  remove-IsUnique k ((j, w) ∷ d) u =
      ground (arith, remove-IsUnique k d u.1, has-remove-false k j d u.0)

pub has-inserted {ℓ} : {V : Type ℓ} (k : Text) (v : V) (d : Dict V) → has k (insert k v d) ≡ true
has-inserted k v d = simp (dict_laws, text_eq_refl)
