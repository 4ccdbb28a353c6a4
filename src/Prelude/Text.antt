-- ===== src/Prelude/Text.antt =====
-- A text as the list of its characters, by their Unicode scalar values, and the functions of Rust's
-- `str` and `char` that the handlers call.
use Prim.Native.Nat.{ℕ, ◌<◌, ◌+◌, ◌-◌, ◌*◌, ◌/◌, ◌%◌}
use Prim.Native.String.{String}
use Prim.Native.Char.{code}
use mathlib.Core.Path.{◌≡◌}
use mathlib.Core.Logic.{◌↔◌}
use mathlib.Core.Bool.{Bool, true, false, ◌&&◌, ◌||◌}
use mathlib.Core.Option.{Option, none, some}
use mathlib.Core.List.{List, [], ◌∷◌}
use native.Mathlib.Omega.{arith}
use shuestand.Prelude.Tests.{leb, ltb, ◌==◌, if◌then◌else◌}

abbrev pub Text : Type 0
Text = List ℕ

-- The text of a literal.
abbrev pub codes : String → Text
codes String.[] = []
codes (String.◌∷◌ c s) = code c ∷ codes s

abbrev pub is_empty : Text → Bool
is_empty [] = true
is_empty (c ∷ s) = false

unfoldable pub text_eq : Text → Text → Bool
text_eq [] [] = true
text_eq (c ∷ s) [] = false
text_eq [] (d ∷ t) = false
text_eq (c ∷ s) (d ∷ t) = c == d && text_eq s t

pub text_eq_iff : (s t : Text) → (text_eq s t ≡ true) ↔ (s ≡ t)
unfolding text_eq
text_eq_iff [] [] = ground arith
text_eq_iff (c ∷ s) [] = ground arith
text_eq_iff [] (d ∷ t) = ground arith
text_eq_iff (c ∷ s) (d ∷ t) = let ih = text_eq_iff s t in ground arith

-- `char::is_whitespace`, the Unicode property White_Space.
unfoldable pub is_whitespace : ℕ → Bool
is_whitespace c =
    (leb 9 c && leb c 13)
    || c == 32
    || c == 0x85
    || c == 0xa0
    || c == 0x1680
    || (leb 0x2000 c && leb c 0x200a)
    || c == 0x2028
    || c == 0x2029
    || c == 0x202f
    || c == 0x205f
    || c == 0x3000

unfoldable pub trim_start : Text → Text
trim_start [] = []
trim_start (c ∷ s) = if is_whitespace c then trim_start s else c ∷ s

unfoldable pub trim_end : Text → Text
trim_end [] = []
trim_end (c ∷ s) =
    let rest = trim_end s in if is_whitespace c && is_empty rest then [] else c ∷ rest

unfoldable pub trim : Text → Text
unfolding trim_start trim_end
trim s = trim_end (trim_start s)

unfoldable pub strip_prefix : Text → Text → Option Text
strip_prefix [] s = some s
strip_prefix (p ∷ ps) [] = none
strip_prefix (p ∷ ps) (c ∷ s) = if p == c then strip_prefix ps s else none

-- `split(sep)`: the parts, at least one.
abbrev pub cons_first : ℕ → List Text → List Text
cons_first c [] = (c ∷ []) ∷ []
cons_first c (p ∷ ps) = (c ∷ p) ∷ ps

unfoldable pub split : ℕ → Text → List Text
split sep [] = [] ∷ []
split sep (c ∷ s) = let rest = split sep s in if c == sep then [] ∷ rest else cons_first c rest

-- `trim_end_matches(end)`.
unfoldable pub trim_end_matches : ℕ → Text → Text
trim_end_matches end [] = []
trim_end_matches end (c ∷ s) =
    let rest = trim_end_matches end s in if c == end && is_empty rest then [] else c ∷ rest

abbrev pub is_ascii_digit : ℕ → Bool
is_ascii_digit c = leb b'0' c && leb c b'9'

abbrev pub is_ascii_hexdigit : ℕ → Bool
is_ascii_hexdigit c = is_ascii_digit c || (leb b'a' c && leb c b'f') || (leb b'A' c && leb c b'F')

abbrev pub to_ascii_lowercase : ℕ → ℕ
to_ascii_lowercase c = if leb b'A' c && leb c b'Z' then c + 32 else c

-- `to_uppercase` of an ASCII character.
abbrev pub to_uppercase : ℕ → ℕ
to_uppercase c = if leb b'a' c && leb c b'z' then c - 32 else c

-- `parse` of an unsigned type whose values are below a bound: a digit that takes the value to the
-- bound is an error.
unfoldable pub parse_digits : ℕ → ℕ → Text → Option ℕ
parse_digits bound acc [] = some acc
parse_digits bound acc (c ∷ s) =
    let next = acc * 10 + (c - b'0') in
    if is_ascii_digit c && ltb next bound then parse_digits bound next s else none

abbrev pub parse_signless : ℕ → ℕ → Text → Option ℕ
parse_signless bound c [] = if c == b'+' then none else parse_digits bound 0 (c ∷ [])
parse_signless bound c (d ∷ s) =
    if c == b'+' then parse_digits bound 0 (d ∷ s) else parse_digits bound 0 (c ∷ d ∷ s)

-- A leading plus is taken, and no digit is an error.
unfoldable pub parse_unsigned : ℕ → Text → Option ℕ
unfolding parse_digits
parse_unsigned bound [] = none
parse_unsigned bound (c ∷ s) = parse_signless bound c s

abbrev pub parse_u8 : Text → Option ℕ
parse_u8 = parse_unsigned 256

parse_digits-lt :
    (bound acc : ℕ) (s : Text) (n : ℕ) → acc < bound → parse_digits bound acc s ≡ some n → n < bound
unfolding parse_digits
parse_digits-lt bound acc [] n h e = ground arith
parse_digits-lt bound acc (c ∷ s) n h e =
    let ih = parse_digits-lt bound (acc * 10 + (c - b'0')) s n in ground (arith, ih)

pub parse_unsigned-lt :
    (bound : ℕ) (s : Text) (n : ℕ) → 0 < bound → parse_unsigned bound s ≡ some n → n < bound
unfolding parse_unsigned
parse_unsigned-lt bound [] n h e = cc
parse_unsigned-lt bound (c ∷ []) n h e =
    let digits = parse_digits-lt bound 0 (c ∷ []) n h in ground (arith, digits)
parse_unsigned-lt bound (c ∷ d ∷ s) n h e =
    let digits = parse_digits-lt bound 0 (d ∷ s) n h in
    let all = parse_digits-lt bound 0 (c ∷ d ∷ s) n h in ground (arith, digits, all)

-- `{}` of a u8.
unfoldable pub print_u8 : ℕ → Text
print_u8 n =
    if ltb n 10
    then (b'0' + n) ∷ []
    else if ltb n 100
    then (b'0' + n / 10) ∷ (b'0' + n % 10) ∷ []
    else (b'0' + n / 100) ∷ (b'0' + n / 10 % 10) ∷ (b'0' + n % 10) ∷ []

pub parse_u8-print_u8 : (n : ℕ) → n < 256 → parse_u8 (print_u8 n) ≡ some n
unfolding parse_unsigned print_u8
parse_u8-print_u8 n h = ground arith
