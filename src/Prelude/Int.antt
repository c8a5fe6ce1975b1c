-- ===== src/Prelude/Int.antt =====
-- Python's integers, where they may be negative: `negsuc n` is -(n + 1).
use Prim.Native.Nat.{ℕ, zero, suc}
use Prim.Native.Char.{code}
use Prim.Native.String.{String}
use mathlib.Core.Bool.{Bool, true, false, ◌&&◌, not}
use mathlib.Core.Option.{Option, none, some}
use text.Mathlib.Text.{◌==◌}
use pegaprox_plugin_opnsense.Prelude.Tests.{ltb, eqb, if◌then◌else◌}
use pegaprox_plugin_opnsense.Prelude.Text.{◌<>◌, decimal, all_chars, is_digit, digits_onto, strip}

pub data ℤ : Type 0 where
  pos : ℕ → ℤ
  negsuc : ℕ → ℤ

-- `str(n)`
unfoldable pub decimal_int : ℤ → String
decimal_int (pos n) = decimal n
decimal_int (negsuc n) = "-" <> decimal (suc n)

-- `n < 0 or n > bound`
abbrev pub outside : ℕ → ℤ → Bool
outside bound (pos n) = ltb bound n
outside bound (negsuc n) = true

-- `a < b`
abbrev pub ltb_int : ℤ → ℤ → Bool
ltb_int (pos a) (pos b) = ltb a b
ltb_int (pos a) (negsuc b) = false
ltb_int (negsuc a) (pos b) = true
ltb_int (negsuc a) (negsuc b) = ltb b a

abbrev pub eq_int : ℤ → ℤ → Bool
eq_int (pos a) (pos b) = eqb a b
eq_int (negsuc a) (negsuc b) = eqb a b
eq_int _ _ = false

-- The negation of a number that is not negative
abbrev pub minus : ℕ → ℤ
minus zero = pos 0
minus (suc n) = negsuc n

abbrev all_digits : String → Bool
all_digits s = not (s == "") && all_chars is_digit s

signed : String → Option ℤ
signed String.[] = none
signed (String.◌∷◌ c s) =
    if eqb (code c) b'-' && all_digits s
    then some (minus (digits_onto 0 s))
    else if eqb (code c) b'+' && all_digits s
    then some (pos (digits_onto 0 s))
    else if all_digits (String.◌∷◌ c s)
    then some (pos (digits_onto 0 (String.◌∷◌ c s)))
    else none

-- `int(s)` of a text, `none` where that raises `ValueError`; without Python's underscores.
unfoldable pub parse_int : String → Option ℤ
unfolding signed
parse_int s = signed (strip s)
