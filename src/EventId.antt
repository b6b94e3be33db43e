-- ===== src/EventId.antt =====
-- utils/sse_utils.py: event ids `{run_id}_event_{sequence}`. Texts are lists of code points; `int`
-- and `str` are Python's, on ASCII text.
pub mod RoundTrip
mod Examples
use open_langgraph_platform.Prelude.{
  ℕ, zero, suc, ◌+◌, ◌-◌, ◌*◌, ◌/◌, ◌%◌, Bool, true, false, ◌&&◌, ◌||◌, Option, none, some, List,
  [], ◌∷◌, ◌++◌, Text, codes, starts_with, leb, ltb, ◌==◌, if◌then◌else◌,
}
use open_langgraph_platform.Prelude.Int.{ℤ, pos, negsuc}

-- `str(n)`: the digits in front of `out`; `n` has fewer than `n + 1` of them
show : ℕ → ℕ → Text → Text
show zero n out = out
show (suc fuel) n out =
    let rest = show fuel (n / 10) ((b'0' + n % 10) ∷ out) in
    if ltb n 10 then (b'0' + n) ∷ out else rest

pub str : ℕ → Text
unfolding show
str n = show (suc n) n []

-- `int(text)`: white space, a sign, digits with single underscores between them, white space
pub data Mode : Type 0 where
  lead : Mode
  signed : Bool → Mode
  number : Bool → ℕ → Mode
  underscore : Bool → ℕ → Mode
  trail : Bool → ℕ → Mode

is_space : ℕ → Bool
is_space c = c == 32 || (leb 9 c && leb c 13) || (leb 28 c && leb c 31)

is_digit : ℕ → Bool
is_digit c = leb b'0' c && leb c b'9'

next : Mode → ℕ → Option Mode
unfolding is_space is_digit
next lead c =
    if is_digit c
    then some (number false (c - b'0'))
    else if c == b'-'
    then some (signed true)
    else if c == b'+'
    then some (signed false)
    else if is_space c
    then some lead
    else none
next (signed neg) c = if is_digit c then some (number neg (c - b'0')) else none
next (number neg n) c =
    if is_digit c
    then some (number neg (n * 10 + (c - b'0')))
    else if c == b'_'
    then some (underscore neg n)
    else if is_space c
    then some (trail neg n)
    else none
next (underscore neg n) c = if is_digit c then some (number neg (n * 10 + (c - b'0'))) else none
next (trail neg n) c = if is_space c then some (trail neg n) else none

to_int : Bool → ℕ → ℤ
to_int false n = pos n
to_int true zero = pos zero
to_int true (suc n) = negsuc n

finish : Mode → Option ℤ
unfolding to_int
finish (number neg n) = some (to_int neg n)
finish (trail neg n) = some (to_int neg n)
finish _ = none

scan : Mode → Text → Option ℤ
unfolding next finish
scan m [] = finish m
scan m (c ∷ s) = elim (next m c) [ none ↦ none | some m' ↦ scan m' s ]

unfoldable pub int : Text → Option ℤ
unfolding scan
int s = scan lead s

abbrev pub separator : Text
separator = codes "_event_"

-- `s.split("_event_")[-1]`: `skip` counts the characters of a separator that are still to pass
last_part : ℕ → Text → Text → Text
last_part skip part [] = part
last_part (suc skip) part (c ∷ s) = last_part skip part s
last_part zero part (c ∷ s) =
    let here = starts_with (c ∷ s) separator in
    last_part (if here then 6 else 0) (if here then [] else part ++ c ∷ []) s

unfoldable pub split_last : Text → Text
unfolding last_part
split_last s = last_part 0 [] s

unfoldable pub generate_event_id : Text → ℕ → Text
unfolding str
generate_event_id run_id sequence = run_id ++ (separator ++ str sequence)

-- the same for a counter that is an integer
unfoldable pub generate_event_id_ℤ : Text → ℤ → Text
unfolding str
generate_event_id_ℤ run_id (pos n) = generate_event_id run_id n
generate_event_id_ℤ run_id (negsuc n) = run_id ++ (separator ++ b'-' ∷ str (suc n))

-- `except (ValueError, IndexError): return 0`
unfoldable pub or_zero : Option ℤ → ℤ
or_zero none = pos 0
or_zero (some n) = n

unfoldable pub extract_event_sequence : Text → ℤ
unfolding or_zero int split_last
extract_event_sequence event_id = or_zero (int (split_last event_id))
