-- ===== src/Organizations/Slug.antt =====
-- `generate_slug`. The normalization NFKD of Unicode is an argument.
use open_langgraph_platform.Prelude.{
  ℕ, Bool, true, false, ◌&&◌, ◌||◌, [], ◌∷◌, Text, ◌==◌, if◌then◌else◌, ltb, leb, take, filter,
  length, lower,
}

-- `\s` and `_`, among ASCII
unfoldable pub is_gap : ℕ → Bool
is_gap c = c == 32 || leb 9 c && leb c 13 || leb 28 c && leb c 31 || c == 95

unfoldable pub is_word : ℕ → Bool
is_word c = leb 97 c && leb c 122 || leb 48 c && leb c 57

unfoldable pub is_dash : ℕ → Bool
is_dash c = c == 45

unfoldable pub is_allowed : ℕ → Bool
unfolding is_word is_dash
is_allowed c = is_word c || is_dash c

-- `re.sub("[…]+", "-", text)`, inside a run or not
unfoldable pub collapse : (ℕ → Bool) → Bool → Text → Text
collapse test inside [] = []
collapse test inside (c ∷ t) =
    let after_run = collapse test true t in
    let after_other = collapse test false t in
    if test c then (if inside then after_run else 45 ∷ after_run) else c ∷ after_other

unfoldable pub lstrip : Text → Text
unfolding is_dash
lstrip [] = []
lstrip (c ∷ t) = let rest = lstrip t in if is_dash c then rest else c ∷ t

unfoldable pub unless_empty : ℕ → Text → Text
unfolding is_dash
unless_empty c [] = if is_dash c then [] else c ∷ []
unless_empty c (d ∷ t) = c ∷ d ∷ t

unfoldable pub rstrip : Text → Text
unfolding unless_empty
rstrip [] = []
rstrip (c ∷ t) = unless_empty c (rstrip t)

unfoldable pub cut : ℕ → Text → Text
unfolding rstrip
cut max_length slug = if ltb max_length (length slug) then rstrip (take max_length slug) else slug

unfoldable pub generate_slug : (Text → Text) → ℕ → Text → Text
unfolding collapse is_gap is_allowed is_dash lstrip rstrip cut lower
generate_slug nfkd max_length name =
    let ascii_text = filter (λ c. ltb c 128) (nfkd name) in
    let gaps = collapse is_gap false (lower ascii_text) in
    let kept = filter is_allowed gaps in
    cut max_length (rstrip (lstrip (collapse is_dash false kept)))
