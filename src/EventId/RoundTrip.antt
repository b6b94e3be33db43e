-- ===== src/EventId/RoundTrip.antt =====
-- The sequence number of a generated event id is read back.
use open_langgraph_platform.Prelude.{
  ℕ, zero, suc, ◌+◌, ◌/◌, ◌%◌, ◌<◌, ◌≡◌, ◌≢◌, refl, false, some, [], ◌∷◌, ◌++◌, arith, Text,
  starts_with, All, ◌∙◌, ap,
}
use mathlib.Core.List.{append_assoc, append-nil}
use open_langgraph_platform.Prelude.Int.{pos}
use open_langgraph_platform.EventId.{
  show, str, lead, number, scan, int, separator, last_part, split_last, generate_event_id,
  extract_event_sequence, or_zero,
}

scan-show :
    (fuel n : ℕ) (out : Text) → n < fuel → scan lead (show fuel n out) ≡ scan (number false n) out
unfolding show scan
scan-show zero n out h = absurd (omega arith)
scan-show (suc fuel) n out h = ground (arith, scan-show fuel (n / 10) ((b'0' + n % 10) ∷ out))

int-str : (n : ℕ) → int (str n) ≡ some (pos n)
unfolding int str
int-str n = scan-show (suc n) n [] (omega arith)

-- No character is an underscore.
abbrev pub NoUnderscore : Text → Type 0
NoUnderscore = All (λ c. c ≢ b'_')

not_separator : (c : ℕ) (s : Text) → c ≢ b'_' → starts_with (c ∷ s) separator ≡ false
unfolding starts_with
not_separator c s h = ground arith

last_part_step :
    (part : Text) (c : ℕ) (s : Text)
    → c ≢ b'_'
    → last_part 0 part (c ∷ s) ≡ last_part 0 (part ++ c ∷ []) s
unfolding last_part
last_part_step part c s h = rw (not_separator c s h)

last_part_plain : (part s : Text) → NoUnderscore s → last_part 0 part s ≡ part ++ s
last_part_plain part [] h = unfold last_part in simp append-nil
last_part_plain part (c ∷ s) h =
    last_part_step part c s h.0
    ∙ last_part_plain (part ++ c ∷ []) s h.1
    ∙ append_assoc part (c ∷ []) s

last_part_skip :
    (part s rest : Text)
    → NoUnderscore s
    → last_part 0 part (s ++ rest) ≡ last_part 0 (part ++ s) rest
last_part_skip part [] rest h = simp append-nil
last_part_skip part (c ∷ s) rest h =
    last_part_step part c (s ++ rest) h.0
    ∙ last_part_skip (part ++ c ∷ []) s rest h.1
    ∙ ap (λ t. last_part 0 t rest) (append_assoc part (c ∷ []) s)

last_part-separator :
    (part rest : Text) → last_part 0 part (separator ++ rest) ≡ last_part 0 [] rest
unfolding last_part starts_with
last_part-separator part rest = refl

digits_plain : (fuel n : ℕ) (out : Text) → NoUnderscore out → NoUnderscore (show fuel n out)
unfolding show
digits_plain zero n out h = h
digits_plain (suc fuel) n out h = ground (arith, digits_plain fuel (n / 10) ((b'0' + n % 10) ∷ out))

split_last-generate :
    (run_id : Text) (sequence : ℕ)
    → NoUnderscore run_id
    → split_last (generate_event_id run_id sequence) ≡ str sequence
unfolding split_last generate_event_id
split_last-generate run_id sequence h =
    last_part_skip [] run_id (separator ++ str sequence) h
    ∙ last_part-separator run_id (str sequence)
    ∙ last_part_plain [] (str sequence) (digits_plain (suc sequence) sequence [] tt)

-- The sequence number of a generated event id is read back, for every run id without an underscore
-- (run ids are UUIDs) and every sequence number.
pub extract-generate :
    (run_id : Text) (sequence : ℕ)
    → NoUnderscore run_id
    → extract_event_sequence (generate_event_id run_id sequence) ≡ pos sequence
unfolding extract_event_sequence
extract-generate run_id sequence h =
    ap (λ s. or_zero (int s)) (split_last-generate run_id sequence h)
    ∙ ap or_zero (int-str sequence)
