-- ===== src/Prelude/Text.antt =====
-- Python's string operations: `+`, `lower`, `upper`, `strip`, `split`, `in`, slices and `str(int)`.
use Prim.Native.Nat.{ℕ, zero, suc, ◌+◌, ◌*◌, ◌-◌, ◌/◌, ◌%◌}
use Prim.Native.Char.{Char, code}
use Prim.Native.String
use Prim.Native.String.{String}
use mathlib.Core.Bool.{Bool, true, false, ◌&&◌, ◌||◌, not}
use mathlib.Core.List.{List, [], ◌∷◌}
use text.Mathlib.Text.{◌==◌, starts_with}
use pegaprox_plugin_opnsense.Prelude.Tests.{leb, eqb, if◌then◌else◌}

infixr 66 ◌<>◌
unfoldable pub ◌<>◌ : String → String → String
s <> t = String.◌++◌ s t

-- `s[:n]`
unfoldable pub take_chars : ℕ → String → String
take_chars zero s = ""
take_chars (suc n) String.[] = ""
take_chars (suc n) (String.◌∷◌ c s) = String.◌∷◌ c (take_chars n s)

-- `len(s)`
unfoldable pub count_chars : String → ℕ
count_chars String.[] = 0
count_chars (String.◌∷◌ c s) = suc (count_chars s)

-- `all(p(c) for c in s)`
unfoldable pub all_chars : (ℕ → Bool) → String → Bool
all_chars p String.[] = true
all_chars p (String.◌∷◌ c s) = p (code c) && all_chars p s

-- `c in s` for a one-character text `c`
unfoldable pub has_char : ℕ → String → Bool
has_char k String.[] = false
has_char k (String.◌∷◌ c s) = eqb (code c) k || has_char k s

-- The code of the last character, 0 for an empty text.
unfoldable pub last_code : ℕ → String → ℕ
last_code k String.[] = k
last_code k (String.◌∷◌ c s) = last_code (code c) s

-- `s.endswith(c)` for a one-character text
unfoldable pub ends_with_char : ℕ → String → Bool
unfolding last_code
ends_with_char k s = not (s == "") && eqb (last_code 0 s) k

lower_char : Char → Char
lower_char c =
    if c_is "A"
    then "a"
    else if c_is "B"
    then "b"
    else if c_is "C"
    then "c"
    else if c_is "D"
    then "d"
    else if c_is "E"
    then "e"
    else if c_is "F"
    then "f"
    else if c_is "G"
    then "g"
    else if c_is "H"
    then "h"
    else if c_is "I"
    then "i"
    else if c_is "J"
    then "j"
    else if c_is "K"
    then "k"
    else if c_is "L"
    then "l"
    else if c_is "M"
    then "m"
    else if c_is "N"
    then "n"
    else if c_is "O"
    then "o"
    else if c_is "P"
    then "p"
    else if c_is "Q"
    then "q"
    else if c_is "R"
    then "r"
    else if c_is "S"
    then "s"
    else if c_is "T"
    then "t"
    else if c_is "U"
    then "u"
    else if c_is "V"
    then "v"
    else if c_is "W"
    then "w"
    else if c_is "X"
    then "x"
    else if c_is "Y"
    then "y"
    else if c_is "Z"
    then "z"
    else c
  where
    c_is : Char → Bool
    c_is d = eqb (code c) (code d)

-- `s.lower()` on ASCII text
unfoldable pub lower : String → String
unfolding lower_char
lower String.[] = ""
lower (String.◌∷◌ c s) = String.◌∷◌ (lower_char c) (lower s)

-- The pieces between the separators, the last one built up in front of the rest.
unfoldable pub prepend : Char → List String → List String
prepend c [] = String.◌∷◌ c "" ∷ []
prepend c (w ∷ ws) = String.◌∷◌ c w ∷ ws

-- `s.split(sep)` for a one-character separator
unfoldable pub split_on : (ℕ → Bool) → String → List String
unfolding prepend
split_on sep String.[] = "" ∷ []
split_on sep (String.◌∷◌ c s) =
    let rest = split_on sep s in if sep (code c) then "" ∷ rest else prepend c rest

digit : ℕ → String
digit d =
    if eqb d 0
    then "0"
    else if eqb d 1
    then "1"
    else if eqb d 2
    then "2"
    else if eqb d 3
    then "3"
    else if eqb d 4
    then "4"
    else if eqb d 5
    then "5"
    else if eqb d 6
    then "6"
    else if eqb d 7
    then "7"
    else if eqb d 8
    then "8"
    else "9"

-- The digits of `n` in front of `rest`; the fuel is at least the number of digits.
decimal_onto : ℕ → ℕ → String → String
decimal_onto zero n rest = rest
decimal_onto (suc fuel) n rest =
    let all = digit (n % 10) <> rest in
    let more = decimal_onto fuel (n / 10) all in if eqb (n / 10) 0 then all else more

-- `str(n)` of a number that is not negative
unfoldable pub decimal : ℕ → String
unfolding decimal_onto digit ◌<>◌
decimal n = decimal_onto (suc n) n ""

-- `c.isdigit()` on ASCII
abbrev pub is_digit : ℕ → Bool
is_digit c = leb b'0' c && leb c b'9'

-- `[0-9a-f]`
abbrev pub is_hex_lower : ℕ → Bool
is_hex_lower c = is_digit c || (leb b'a' c && leb c b'f')

-- `[0-9a-fA-F]`
abbrev pub is_hex : ℕ → Bool
is_hex c = is_hex_lower c || (leb b'A' c && leb c b'F')

-- What Python's `$` looks away from: one line feed at the end.
unfoldable pub without_line_feed : String → String
without_line_feed String.[] = ""
without_line_feed (String.◌∷◌ c String.[]) = if eqb (code c) 10 then "" else String.◌∷◌ c ""
without_line_feed (String.◌∷◌ c (String.◌∷◌ d s)) =
    String.◌∷◌ c (without_line_feed (String.◌∷◌ d s))

upper_char : Char → Char
upper_char c =
    if c_is "a"
    then "A"
    else if c_is "b"
    then "B"
    else if c_is "c"
    then "C"
    else if c_is "d"
    then "D"
    else if c_is "e"
    then "E"
    else if c_is "f"
    then "F"
    else if c_is "g"
    then "G"
    else if c_is "h"
    then "H"
    else if c_is "i"
    then "I"
    else if c_is "j"
    then "J"
    else if c_is "k"
    then "K"
    else if c_is "l"
    then "L"
    else if c_is "m"
    then "M"
    else if c_is "n"
    then "N"
    else if c_is "o"
    then "O"
    else if c_is "p"
    then "P"
    else if c_is "q"
    then "Q"
    else if c_is "r"
    then "R"
    else if c_is "s"
    then "S"
    else if c_is "t"
    then "T"
    else if c_is "u"
    then "U"
    else if c_is "v"
    then "V"
    else if c_is "w"
    then "W"
    else if c_is "x"
    then "X"
    else if c_is "y"
    then "Y"
    else if c_is "z"
    then "Z"
    else c
  where
    c_is : Char → Bool
    c_is d = eqb (code c) (code d)

-- `s.upper()` on ASCII text
unfoldable pub upper : String → String
unfolding upper_char
upper String.[] = ""
upper (String.◌∷◌ c s) = String.◌∷◌ (upper_char c) (upper s)

-- ASCII white space
abbrev pub is_space : ℕ → Bool
is_space c = eqb c 32 || (leb 9 c && leb c 13) || (leb 28 c && leb c 31)

unfoldable pub lstrip : String → String
lstrip String.[] = ""
lstrip (String.◌∷◌ c s) = let rest = lstrip s in if is_space (code c) then rest else String.◌∷◌ c s

unfoldable pub rstrip : String → String
rstrip String.[] = ""
rstrip (String.◌∷◌ c s) =
    let rest = rstrip s in if is_space (code c) && rest == "" then "" else String.◌∷◌ c rest

-- `s.strip()`
unfoldable pub strip : String → String
unfolding lstrip rstrip
strip s = rstrip (lstrip s)

-- The number that a text of digits spells, after `n`.
unfoldable pub digits_onto : ℕ → String → ℕ
digits_onto n String.[] = n
digits_onto n (String.◌∷◌ c s) = digits_onto (n * 10 + (code c - 48)) s

-- `",".join(words)`
unfoldable pub join_comma : List String → String
unfolding ◌<>◌
join_comma [] = ""
join_comma (w ∷ []) = w
join_comma (w ∷ (v ∷ ws)) = w <> "," <> join_comma (v ∷ ws)

-- `s.lstrip(c)` for a one-character text
unfoldable pub lstrip_char : ℕ → String → String
lstrip_char k String.[] = ""
lstrip_char k (String.◌∷◌ c s) =
    let rest = lstrip_char k s in if eqb (code c) k then rest else String.◌∷◌ c s

-- `s.rstrip(c)` for a one-character text
unfoldable pub rstrip_char : ℕ → String → String
rstrip_char k String.[] = ""
rstrip_char k (String.◌∷◌ c s) =
    let rest = rstrip_char k s in if eqb (code c) k && rest == "" then "" else String.◌∷◌ c rest

-- `part in s`
unfoldable pub contains : String → String → Bool
contains part String.[] = part == ""
contains part (String.◌∷◌ c s) = starts_with (String.◌∷◌ c s) part || contains part s
