-- ===== src/Prelude/Lists.antt =====
-- Lists measured by native numbers, under the library's names, and Boolean filters.
use Prim.Native.Nat.{ℕ, zero, suc, ◌+◌}
use mathlib.Core.Path.{◌≡◌, refl}
use mathlib.Core.Bool.{Bool, false, ◌||◌}
use mathlib.Core.List.{List, [], ◌∷◌, ◌++◌}
use native.Mathlib.Omega.{arith}
use mathlib.Core.Logic.{◌⊎◌, inl, inr}
use open_langgraph_platform.Prelude.Tests.{if◌then◌else◌, Bool-cases}

module _ {ℓ} {A : Type ℓ} where
  abbrev pub length : List A → ℕ
  length [] = 0
  length (x ∷ xs) = suc (length xs)

  abbrev pub take : ℕ → List A → List A
  take zero xs = []
  take (suc n) [] = []
  take (suc n) (x ∷ xs) = x ∷ take n xs

  abbrev pub drop : ℕ → List A → List A
  drop zero xs = xs
  drop (suc n) [] = []
  drop (suc n) (x ∷ xs) = drop n xs

  -- `[x for x in xs if p(x)]`
  abbrev pub filter : (A → Bool) → List A → List A
  filter p [] = []
  filter p (x ∷ xs) = if p x then x ∷ filter p xs else filter p xs

  -- `any(p(x) for x in xs)`
  abbrev pub any : (A → Bool) → List A → Bool
  any p [] = false
  any p (x ∷ xs) = p x || any p xs

  -- Every item satisfies `P`.
  abbrev pub All {κ} : (A → Type κ) → List A → Type κ
  All P [] = Unit
  All P (x ∷ xs) = P x × All P xs

module _ {ℓ} {A : Type ℓ} where
  pub length-append : (xs ys : List A) → length (xs ++ ys) ≡ length xs + length ys
  length-append [] ys = omega arith
  length-append (x ∷ xs) ys = omega (arith, length-append xs ys)

  pub filter-append :
      (p : A → Bool) (xs ys : List A) → filter p (xs ++ ys) ≡ filter p xs ++ filter p ys
  filter-append p [] ys = refl
  filter-append p (x ∷ xs) ys = ground (arith, filter-append p xs ys)

  pub any-append : (p : A → Bool) (xs ys : List A) → any p (xs ++ ys) ≡ (any p xs || any p ys)
  any-append p [] ys = refl
  any-append p (x ∷ xs) ys = ground (arith, any-append p xs ys)

module _ {ℓ κ} {A : Type ℓ} where
  pub All-filter : (P : A → Type κ) (p : A → Bool) (xs : List A) → All P xs → All P (filter p xs)
  All-filter P p [] a = tt
  All-filter P p (x ∷ xs) a = elim (Bool-cases (p x)) [
    | inl t ↦ rw t (a.0, All-filter P p xs a.1)
    | inr t ↦ rw t (All-filter P p xs a.1)
  ]

  pub All-append : (P : A → Type κ) (xs ys : List A) → All P xs → All P ys → All P (xs ++ ys)
  All-append P [] ys a b = b
  All-append P (x ∷ xs) ys a b = (a.0, All-append P xs ys a.1 b)

  pub All-weaken : (P Q : A → Type κ) (xs : List A) → ((x : A) → P x → Q x) → All P xs → All Q xs
  All-weaken P Q [] f a = tt
  All-weaken P Q (x ∷ xs) f a = (f x a.0, All-weaken P Q xs f a.1)

module _ {A : Type 0} where
  -- `x` stands in the list.
  abbrev pub Occurs : A → List A → Type 0
  Occurs x [] = ⊥
  Occurs x (y ∷ ys) = (x ≡ y) ⊎ Occurs x ys

  pub Occurs-append : (x : A) (xs ys : List A) → Occurs x xs → Occurs x (xs ++ ys)
  Occurs-append x [] ys o = elim o [ ]
  Occurs-append x (y ∷ xs) ys (inl e) = inl e
  Occurs-append x (y ∷ xs) ys (inr o) = inr (Occurs-append x xs ys o)

  pub Occurs-last : (x : A) (xs : List A) → Occurs x (xs ++ x ∷ [])
  Occurs-last x [] = inl refl
  Occurs-last x (y ∷ xs) = inr (Occurs-last x xs)

  pub Occurs-filter : (p : A → Bool) (x : A) (xs : List A) → Occurs x (filter p xs) → Occurs x xs
  Occurs-filter p x [] o = elim o [ ]
  Occurs-filter p x (y ∷ xs) o = elim (Bool-cases (p y)) [
    | inl t ↦ elim (rw t at o) as (λ _. Occurs x (y ∷ xs)) [
      | inl e ↦ inl e
      | inr o' ↦ inr (Occurs-filter p x xs o')
    ]
    | inr t ↦ inr (Occurs-filter p x xs (rw t at o))
  ]

  pub Occurs-take : (n : ℕ) (x : A) (xs : List A) → Occurs x (take n xs) → Occurs x xs
  Occurs-take zero x xs o = elim o [ ]
  Occurs-take (suc n) x [] o = elim o [ ]
  Occurs-take (suc n) x (y ∷ xs) (inl e) = inl e
  Occurs-take (suc n) x (y ∷ xs) (inr o) = inr (Occurs-take n x xs o)
