-- ===== src/RateLimitRules/Glob.antt =====
-- Python's `fnmatch.fnmatchcase`, which is `fnmatch.fnmatch` where paths keep their case: `*`, `?`,
-- `[seq]` and `[!seq]`; a bracket that does not close is a literal.
use open_langgraph_platform.Prelude.{
  ℕ, zero, suc, ◌≡◌, refl, Bool, true, false, ◌&&◌, ◌||◌, not, Option, none, some, List, [], ◌∷◌,
  Text, leb, ◌==◌, if◌then◌else◌, length, codes,
}

pub data Item : Type 0 where
  star any_char : Item
  literal : ℕ → Item
  class : Bool → List (ℕ × ℕ) → Item

-- the text up to the next `]`, and what follows it
up_to_bracket : Text → Option (Text × Text)
up_to_bracket [] = none
up_to_bracket (c ∷ p) =
    let later : Option (Text × Text) = elim (up_to_bracket p) [
      | none ↦ none
      | some (inside, rest) ↦ some (c ∷ inside, rest)
    ] in
    if c == 93 then some ([], p) else later

-- A `]` in front belongs to the set.
closed : Text → Option (Text × Text)
unfolding up_to_bracket
closed [] = none
closed (c ∷ p) =
    if c == 93
    then elim (up_to_bracket p) [ none ↦ none | some (inside, rest) ↦ some (c ∷ inside, rest) ]
    else up_to_bracket (c ∷ p)

spans : Text → List (ℕ × ℕ)
spans [] = []
spans (a ∷ []) = (a, a) ∷ []
spans (a ∷ h ∷ []) = (a, a) ∷ (h, h) ∷ []
spans (a ∷ h ∷ b ∷ t) =
    let range = spans t in
    let single = spans (h ∷ b ∷ t) in if h == 45 then (a, b) ∷ range else (a, a) ∷ single

-- the set behind `[`, negated by `!`
bracket : Text → Option (Item × Text)
unfolding closed spans
bracket [] = none
bracket (c ∷ p) =
    if c == 33
    then elim (closed p) [
      | none ↦ none
      | some (inside, rest) ↦ some (class true (spans inside), rest)
    ]
    else elim (closed (c ∷ p)) [
      | none ↦ none
      | some (inside, rest) ↦ some (class false (spans inside), rest)
    ]

-- each item takes at least one character, so that the length of the pattern is enough fuel
compile : ℕ → Text → List Item
unfolding bracket
compile zero p = []
compile (suc fuel) [] = []
compile (suc fuel) (c ∷ p) =
    let rest = compile fuel p in
    if c == 42
    then star ∷ rest
    else if c == 63
    then any_char ∷ rest
    else if c == 91
    then elim (bracket p) [ none ↦ literal c ∷ rest | some (item, q) ↦ item ∷ compile fuel q ]
    else literal c ∷ rest

in_spans : List (ℕ × ℕ) → ℕ → Bool
in_spans [] c = false
in_spans ((lo, hi) ∷ ranges) c = (leb lo c && leb c hi) || in_spans ranges c

accepts : Item → ℕ → Bool
unfolding in_spans
accepts star c = false
accepts any_char c = true
accepts (literal d) c = c == d
accepts (class negated ranges) c = if negated then not (in_spans ranges c) else in_spans ranges c

-- the test on some suffix of the text
some_suffix : (Text → Bool) → Text → Bool
some_suffix test [] = test []
some_suffix test (c ∷ s) = test (c ∷ s) || some_suffix test s

unfoldable pub matches : List Item → Text → Bool
unfolding some_suffix accepts
matches [] [] = true
matches [] (c ∷ s) = false
matches (star ∷ p) s = some_suffix (matches p) s
matches (item ∷ p) [] = false
matches (item ∷ p) (c ∷ s) = accepts item c && matches p s

unfoldable pub fnmatch : Text → Text → Bool
unfolding compile matches
fnmatch name pattern_text = matches (compile (length pattern_text) pattern_text) name

test_star : fnmatch (codes "/runs/7") (codes "/runs/*") ≡ true
unfolding fnmatch
test_star = refl

test_class : fnmatch (codes "a7x") (codes "a[0-9]?") ≡ true
unfolding fnmatch
test_class = refl

test_negated : fnmatch (codes "a7") (codes "a[!0-9]") ≡ false
unfolding fnmatch
test_negated = refl

test_open : fnmatch (codes "a[b") (codes "a[b") ≡ true
unfolding fnmatch
test_open = refl
