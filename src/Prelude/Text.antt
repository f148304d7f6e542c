-- ===== src/Prelude/Text.antt =====
-- Python's `str` methods that the parsers use, and `int` and `str` of whole numbers.
pub mod Cuts
pub mod Numbers
use Prim.Native.Char.{Char, code}
use Prim.Native.Nat.{ℕ, zero, suc, ◌+◌, ◌-◌, ◌*◌, ◌/◌, ◌%◌}
use Prim.Native.String
use Prim.Native.String.{String, ◌++◌ as ◌++ₛ◌}
use mathlib.Core.Bool.{Bool, true, false, not, ◌&&◌, ◌||◌}
use mathlib.Core.Option.{Option, none, some}
use mathlib.Core.List.{List, [], ◌∷◌}
use xrandrw.Prelude.Tests.{nat_beq, ltb, leb, if◌then◌else◌}
use xrandrw.Prelude.Lists.{filter}
use xrandrw.Prelude.Int.{ℤ, pos, negsuc}

abbrev pub is_empty : String → Bool
is_empty String.[] = true
is_empty (String.◌∷◌ c s) = false

-- `c.isspace()`
abbrev pub is_space : Char → Bool
is_space c =
    let n = code c in
    (leb 9 n && leb n 13)
    || (leb 28 n && leb n 32)
    || nat_beq n 133
    || nat_beq n 160
    || nat_beq n 5760
    || (leb 8192 n && leb n 8202)
    || nat_beq n 8232
    || nat_beq n 8233
    || nat_beq n 8239
    || nat_beq n 8287
    || nat_beq n 12288

unfoldable pub lstrip : String → String
lstrip String.[] = String.[]
lstrip (String.◌∷◌ c s) = let rest = lstrip s in if is_space c then rest else String.◌∷◌ c s

unfoldable pub rstrip : String → String
rstrip String.[] = String.[]
rstrip (String.◌∷◌ c s) =
    let rest = rstrip s in if is_space c && is_empty rest then String.[] else String.◌∷◌ c rest

-- `s.strip()`
unfoldable pub strip : String → String
unfolding lstrip rstrip
strip s = rstrip (lstrip s)

abbrev pub push : Char → List String → List String
push c [] = String.◌∷◌ c String.[] ∷ []
push c (w ∷ ws) = String.◌∷◌ c w ∷ ws

-- The pieces between the characters that pass the test; there is always one.
unfoldable pub split_by : (Char → Bool) → String → List String
split_by p String.[] = String.[] ∷ []
split_by p (String.◌∷◌ c s) =
    let rest = split_by p s in if p c then String.[] ∷ rest else push c rest

abbrev pub is_char : ℕ → Char → Bool
is_char n c = nat_beq (code c) n

-- `s.split(c)`
abbrev pub split : ℕ → String → List String
split n = split_by (is_char n)

-- `s.split()`
abbrev pub words : String → List String
words s = filter (λ (w : String). not (is_empty w)) (split_by is_space s)

-- `s.partition(c)`, `none` where there is no `c`
unfoldable pub partition : ℕ → String → Option (String × String)
partition n String.[] = none
partition n (String.◌∷◌ c s) =
    let rest : Option (String × String) = elim (partition n s) [
      | none ↦ none
      | some (a, b) ↦ some (String.◌∷◌ c a, b)
    ] in
    if is_char n c then some (String.[], s) else rest

-- `s.rpartition(c)`: at the last `c`
unfoldable pub rpartition : ℕ → String → Option (String × String)
rpartition n String.[] = none
rpartition n (String.◌∷◌ c s) = elim (rpartition n s) [
  | some (a, b) ↦ some (String.◌∷◌ c a, b)
  | none ↦ if is_char n c then some (String.[], s) else none
]

abbrev pub is_digit : Char → Bool
is_digit c = leb b'0' (code c) && leb (code c) b'9'

-- Digits, with single underscores between them; the flag says that a digit stands before.
unfoldable pub digits : Bool → ℕ → String → Option ℕ
digits after acc String.[] = if after then some acc else none
digits after acc (String.◌∷◌ c s) =
    let rest = digits (is_digit c) (if is_digit c then acc * 10 + (code c - b'0') else acc) s in
    if is_digit c || (after && is_char b'_' c) then rest else none

abbrev pub minus : ℕ → ℤ
minus zero = pos 0
minus (suc n) = negsuc n

abbrev pub signed : (ℕ → ℤ) → Option ℕ → Option ℤ
signed f none = none
signed f (some n) = some (f n)

unfoldable pub parse_signed : String → Option ℤ
unfolding digits
parse_signed String.[] = none
parse_signed (String.◌∷◌ c s) =
    if is_char b'-' c
    then signed minus (digits false 0 s)
    else if is_char b'+' c
    then signed pos (digits false 0 s)
    else signed pos (digits false 0 (String.◌∷◌ c s))

-- `int(s)`, `none` for a ValueError; of the digits, the ASCII ones.
unfoldable pub parse_int : String → Option ℤ
unfolding strip parse_signed
parse_int s = parse_signed (strip s)

abbrev pub digit : ℕ → Char
digit zero = "0"
digit (suc zero) = "1"
digit (suc (suc zero)) = "2"
digit (suc (suc (suc zero))) = "3"
digit (suc (suc (suc (suc zero)))) = "4"
digit (suc (suc (suc (suc (suc zero))))) = "5"
digit (suc (suc (suc (suc (suc (suc zero)))))) = "6"
digit (suc (suc (suc (suc (suc (suc (suc zero))))))) = "7"
digit (suc (suc (suc (suc (suc (suc (suc (suc zero)))))))) = "8"
digit (suc (suc (suc (suc (suc (suc (suc (suc (suc _))))))))) = "9"

-- The decimal digits of a number below the fuel, before a text.
unfoldable pub show_digits : ℕ → ℕ → String → String
show_digits zero n s = s
show_digits (suc fuel) n s =
    let rest = show_digits fuel (n / 10) (String.◌∷◌ (digit (n % 10)) s) in
    if ltb n 10 then String.◌∷◌ (digit n) s else rest

-- `str(z)`
unfoldable pub show_int : ℤ → String
unfolding show_digits
show_int (pos n) = show_digits (suc n) n ""
show_int (negsuc n) = String.◌∷◌ "-" (show_digits (suc (suc n)) (suc n) "")
