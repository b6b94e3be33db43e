-- ===== src/Prelude/Texts.antt =====
-- Python strings as lists of code points, with the operations of `str` that the program uses.
use Prim.Native.Nat.{ℕ, ◌+◌}
use Prim.Native.Char.{code}
use Prim.Native.String.{String}
use mathlib.Core.Path.{◌≡◌, refl}
use mathlib.Core.Bool.{Bool, true, false, ◌&&◌, ◌||◌}
use mathlib.Core.Logic.{◌↔◌}
use mathlib.Core.List.{List}
use native.Mathlib.Omega.{arith}
use open_langgraph_platform.Prelude.Tests.{◌==◌, ==_iff, leb, if◌then◌else◌}

abbrev pub Text : Type 0
Text = List ℕ

-- A literal.
abbrev pub codes : String → Text
codes String.[] = List.[]
codes (String.◌∷◌ c s) = List.◌∷◌ (code c) (codes s)

-- `s == t`
unfoldable pub text_eq : Text → Text → Bool
text_eq List.[] List.[] = true
text_eq (List.◌∷◌ a s) (List.◌∷◌ b t) = (a == b) && text_eq s t
text_eq _ _ = false

pub text_eq_iff : (s t : Text) → (text_eq s t ≡ true) ↔ (s ≡ t)
unfolding text_eq
text_eq_iff List.[] List.[] = ground arith
text_eq_iff List.[] (List.◌∷◌ b t) = ground arith
text_eq_iff (List.◌∷◌ a s) List.[] = ground arith
text_eq_iff (List.◌∷◌ a s) (List.◌∷◌ b t) = ground (arith, text_eq_iff s t, ==_iff a b)

pub text_eq_refl : (s : Text) → text_eq s s ≡ true
text_eq_refl s = (text_eq_iff s s).1 refl

-- `s.startswith(prefix)`
unfoldable pub starts_with : Text → Text → Bool
starts_with s List.[] = true
starts_with List.[] (List.◌∷◌ b t) = false
starts_with (List.◌∷◌ a s) (List.◌∷◌ b t) = (a == b) && starts_with s t

-- `s.endswith(suffix)`
unfoldable pub ends_with : Text → Text → Bool
ends_with List.[] t = text_eq List.[] t
ends_with (List.◌∷◌ a s) t = text_eq (List.◌∷◌ a s) t || ends_with s t

-- `str.lower` on ASCII
lower_char : ℕ → ℕ
lower_char c = if leb 65 c && leb c 90 then c + 32 else c

unfoldable pub lower : Text → Text
unfolding lower_char
lower List.[] = List.[]
lower (List.◌∷◌ c t) = List.◌∷◌ (lower_char c) (lower t)

-- `part in t`
unfoldable pub occurs : Text → Text → Bool
occurs part List.[] = starts_with List.[] part
occurs part (List.◌∷◌ c t) = starts_with (List.◌∷◌ c t) part || occurs part t
