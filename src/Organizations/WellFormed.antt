-- ===== src/Organizations/WellFormed.antt =====
-- The form of the slugs that `generate_slug` returns.
use open_langgraph_platform.Prelude.{
  ℕ, zero, suc, ◌≤◌, ◌≡◌, refl, Bool, true, false, ◌&&◌, not, [], ◌∷◌, Text, ◌==◌, if◌then◌else◌,
  ltb, take, filter, length, lower, arith, Bool-cases, inl, inr,
}
use open_langgraph_platform.Organizations.Slug.{
  is_gap, is_word, is_dash, is_allowed, collapse, lstrip, unless_empty, rstrip, cut, generate_slug,
}

-- Letters, digits and single dashes, after a dash or not.
unfoldable single : Bool → Text → Bool
unfolding is_word is_dash
single dash [] = true
single dash (c ∷ t) = if is_dash c then not dash && single true t else is_word c && single false t

-- The same, where a dash is not the last character.
unfoldable closed : Bool → Text → Bool
unfolding is_word is_dash
closed dash [] = not dash
closed dash (c ∷ t) = if is_dash c then not dash && closed true t else is_word c && closed false t

-- `([a-z0-9]+(-[a-z0-9]+)*)?`
unfoldable pub is_slug : Text → Bool
unfolding closed
is_slug [] = true
is_slug (c ∷ t) = closed true (c ∷ t)

single-collapse :
    (dash : Bool) (t : Text) → single dash (collapse is_dash dash (filter is_allowed t)) ≡ true
unfolding single collapse is_allowed
single-collapse dash [] = refl
single-collapse dash (c ∷ t) =
    ground (arith, Bool-cases (is_dash c), single-collapse true t, single-collapse false t)

single-lstrip : (dash : Bool) (t : Text) → single dash t ≡ true → single true (lstrip t) ≡ true
unfolding single lstrip
single-lstrip dash [] h = refl
single-lstrip dash (c ∷ t) h = elim (Bool-cases (c == 45)) [
  | inl p ↦ rw p (single-lstrip true t (ground (arith, p, h)))
  | inr p ↦ rw p (ground (arith, p, h))
]

-- nothing, or text that ends well
abbrev ends_well : Bool → Text → Bool
ends_well dash [] = true
ends_well dash (c ∷ t) = closed dash (c ∷ t)

ends_well_cons :
    (dash : Bool) (c : ℕ) (after : Bool) (t : Text)
    → (if c == 45 then not dash && after else is_word c && not after) ≡ true
    → ends_well after t ≡ true
    → ends_well dash (unless_empty c t) ≡ true
unfolding closed unless_empty
ends_well_cons dash c after [] h e = ground (arith, Bool-cases (c == 45))
ends_well_cons dash c after (d ∷ t) h e = ground (arith, Bool-cases (c == 45), Bool-cases after)

single-rstrip : (dash : Bool) (t : Text) → single dash t ≡ true → ends_well dash (rstrip t) ≡ true
unfolding single rstrip
single-rstrip dash [] h = refl
single-rstrip dash (c ∷ t) h = elim (Bool-cases (c == 45)) [
  | inl p ↦
      ends_well_cons dash c true (rstrip t) (ground (arith, p, h))
        (single-rstrip true t (ground (arith, p, h)))
  | inr p ↦
      ends_well_cons dash c false (rstrip t) (ground (arith, p, h))
        (single-rstrip false t (ground (arith, p, h)))
]

single-take :
    (n : ℕ) (dash : Bool) (t : Text) → single dash t ≡ true → single dash (take n t) ≡ true
unfolding single
single-take zero dash t h = refl
single-take (suc n) dash [] h = refl
single-take (suc n) dash (c ∷ t) h =
    ground (arith, Bool-cases (c == 45), single-take n true t, single-take n false t, h)

length-unless_empty : (c : ℕ) (t : Text) → length (unless_empty c t) ≤ suc (length t)
unfolding unless_empty
length-unless_empty c [] = ground arith
length-unless_empty c (d ∷ t) = ground arith

length-rstrip : (t : Text) → length (rstrip t) ≤ length t
unfolding rstrip
length-rstrip [] = ground arith
length-rstrip (c ∷ t) = omega (arith, length-unless_empty c (rstrip t), length-rstrip t)

length_taken : (n : ℕ) (t : Text) → length (take n t) ≤ n
length_taken zero t = ground arith
length_taken (suc n) [] = ground arith
length_taken (suc n) (c ∷ t) = ground (arith, length_taken n t)

single-unless_empty :
    (dash : Bool) (c : ℕ) (t : Text)
    → single dash (c ∷ t) ≡ true
    → single dash (unless_empty c t) ≡ true
unfolding single unless_empty
single-unless_empty dash c [] h = ground (arith, Bool-cases (c == 45), h)
single-unless_empty dash c (d ∷ t) h = h

single_stripped : (dash : Bool) (t : Text) → single dash t ≡ true → single dash (rstrip t) ≡ true
unfolding single rstrip
single_stripped dash [] h = refl
single_stripped dash (c ∷ t) h =
    single-unless_empty dash c (rstrip t)
      (ground (arith, Bool-cases (c == 45), single_stripped true t, single_stripped false t, h))

ends_well-slug : (t : Text) → ends_well true t ≡ true → is_slug t ≡ true
unfolding is_slug
ends_well-slug [] h = refl
ends_well-slug (c ∷ t) h = h

cut_fits :
    (max_length : ℕ) (t : Text)
    → single true t ≡ true
    → (is_slug (cut max_length (rstrip t)) ≡ true)
      × (length (cut max_length (rstrip t)) ≤ max_length)
unfolding cut
cut_fits max_length t h = elim (Bool-cases (ltb max_length (length (rstrip t)))) [
  | inr p ↦ rw p (ends_well-slug (rstrip t) (single-rstrip true t h), ground (arith, p))
  | inl p ↦
      let short = take max_length (rstrip t) in
      let parts : single true short ≡ true =
        single-take max_length true (rstrip t) (single_stripped true t h) in
      rw p (
        ends_well-slug (rstrip short) (single-rstrip true short parts),
        omega (arith, length-rstrip short, length_taken max_length (rstrip t)),
      )
]

-- The slug of any name matches `([a-z0-9]+(-[a-z0-9]+)*)?` and has at most `max_length` characters, for
-- any normalization of Unicode: no dash leads, none trails, no two stand together, and the cut to the
-- greatest length leaves none at the end.
pub generate_slug-IsSlug :
    (nfkd : Text → Text) (max_length : ℕ) (name : Text)
    → (is_slug (generate_slug nfkd max_length name) ≡ true)
      × (length (generate_slug nfkd max_length name) ≤ max_length)
unfolding generate_slug
generate_slug-IsSlug nfkd max_length name =
    let ascii_text = filter (λ c. ltb c 128) (nfkd name) in
    let gaps = collapse is_gap false (lower ascii_text) in
    let dashes = collapse is_dash false (filter is_allowed gaps) in
    cut_fits max_length (lstrip dashes) (single-lstrip false dashes (single-collapse false gaps))
