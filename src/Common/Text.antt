-- ===== src/Common/Text.antt =====
-- Python's `str` methods that the code calls, over the native text: `strip`, slicing from the start,
-- `join`, decimal and hexadecimal numbers, and `str(uuid)`.
pub mod Visible
use Prim.Native.Nat.{ℕ, zero, suc, ◌+◌, ◌≤◌, ◌/◌, ◌%◌, ◌^◌}
use Prim.Native.Char.{Char, code}
use Prim.Native.String.{String, ◌++◌}
use mathlib.Core.Path.{◌≡◌, refl, ap}
use mathlib.Core.Logic.{inl, inr}
use mathlib.Core.Bool.{Bool, false, ◌&&◌, ◌||◌}
use mathlib.Core.List.{List, [], ◌∷◌}
use native.Mathlib.Omega.{arith}
use text.Mathlib.TextLemmas.{nil-append, cons-append}
use text.Mathlib.Text.{◌==◌ as str_eq}
use revy.Common.Tests.{◌==◌, ltb, leb, if◌then◌else◌, Bool-cases}

-- The characters for which `str.isspace` holds.
pub is_space : Char → Bool
is_space ch =
    let c = code ch in
    leb 9 c && leb c 13
    || leb 28 c && leb c 32
    || c == 133
    || c == 160
    || c == 5760
    || leb 8192 c && leb c 8202
    || c == 8232
    || c == 8233
    || c == 8239
    || c == 8287
    || c == 12288

pub lstrip : String → String
lstrip String.[] = ""
lstrip (String.◌∷◌ c s) = let rest = lstrip s in if is_space c then rest else String.◌∷◌ c s

pub rstrip : String → String
rstrip String.[] = ""
rstrip (String.◌∷◌ c s) =
    let rest = rstrip s in if is_space c && str_eq rest "" then "" else String.◌∷◌ c rest

-- `s.strip()`
unfoldable pub strip : String → String
unfolding lstrip rstrip is_space
strip s = rstrip (lstrip s)

-- `s[:n]`
unfoldable pub take_chars : ℕ → String → String
take_chars zero s = ""
take_chars (suc n) String.[] = ""
take_chars (suc n) (String.◌∷◌ c s) = String.◌∷◌ c (take_chars n s)

-- `len(s)`
abbrev pub text_length : String → ℕ
text_length String.[] = 0
text_length (String.◌∷◌ c s) = suc (text_length s)

-- The characters at which `str.splitlines` ends a line.
is_line_end : Char → Bool
is_line_end ch =
    let c = code ch in
    leb 10 c && leb c 13 || leb 28 c && leb c 30 || c == 133 || c == 8232 || c == 8233

-- The lines from here on, with the part of the line read so far; a line feed right after a carriage
-- return ends no line of its own.
split_from : Bool → String → String → List String
split_from after_return line String.[] = if str_eq line "" then [] else line ∷ []
split_from after_return line (String.◌∷◌ c s) =
    let same_line = split_from false (line ++ String.◌∷◌ c "") s in
    let next_line = split_from (code c == 13) "" s in
    let skipped = split_from false "" s in
    if after_return && code c == 10
    then skipped
    else if is_line_end c
    then line ∷ next_line
    else same_line

-- `s.splitlines()`
unfoldable pub splitlines : String → List String
unfolding split_from is_line_end
splitlines s = split_from false "" s

-- `sep.join(parts)`
unfoldable pub join : String → List String → String
join sep [] = ""
join sep (s ∷ []) = s
join sep (s ∷ t ∷ rest) = s ++ sep ++ join sep (t ∷ rest)

digit : ℕ → String
digit n =
    if n == 0
    then "0"
    else if n == 1
    then "1"
    else if n == 2
    then "2"
    else if n == 3
    then "3"
    else if n == 4
    then "4"
    else if n == 5
    then "5"
    else if n == 6
    then "6"
    else if n == 7
    then "7"
    else if n == 8
    then "8"
    else if n == 9
    then "9"
    else if n == 10
    then "a"
    else if n == 11
    then "b"
    else if n == 12
    then "c"
    else if n == 13
    then "d"
    else if n == 14
    then "e"
    else "f"

decimal_from : ℕ → ℕ → String
unfolding digit
decimal_from zero n = ""
decimal_from (suc fuel) n =
    let more = decimal_from fuel (n / 10) in if ltb n 10 then digit n else more ++ digit (n % 10)

-- `str(n)` for a number that is not negative; it has at most n + 1 digits.
unfoldable pub decimal : ℕ → String
unfolding decimal_from
decimal n = decimal_from (suc n) n

hex_digits : ℕ → ℕ → String
unfolding digit
hex_digits zero n = ""
hex_digits (suc w) n = hex_digits w (n / 16) ++ digit (n % 16)

-- `str(uuid)`: 32 hexadecimal digits in groups of 8, 4, 4, 4 and 12.
unfoldable pub uuid_str : ℕ → String
unfolding hex_digits
uuid_str n =
    hex_digits 8 (n / 2 ^ 96)
    ++ "-"
    ++ hex_digits 4 (n / 2 ^ 80)
    ++ "-"
    ++ hex_digits 4 (n / 2 ^ 64)
    ++ "-"
    ++ hex_digits 4 (n / 2 ^ 48)
    ++ "-"
    ++ hex_digits 12 n

decimal_many : decimal 1205 ≡ "1205"
unfolding decimal
decimal_many = refl

uuid_str_small : uuid_str 0x12ab ≡ "00000000-0000-0000-0000-0000000012ab"
unfolding uuid_str
uuid_str_small = refl

strip_both : strip "  a b \n" ≡ "a b"
unfolding strip
strip_both = refl

splitlines_mixed : splitlines "a\r\n\nb" ≡ ("a" ∷ "" ∷ "b" ∷ [])
unfolding splitlines
splitlines_mixed = refl

length_append : (s t : String) → text_length (s ++ t) ≡ text_length s + text_length t
length_append String.[] t = let start = ap text_length (nil-append t) in omega arith
length_append (String.◌∷◌ c s) t =
    let rest = length_append s t in let start = ap text_length (cons-append c s t) in omega arith

lstrip-length : (s : String) → text_length (lstrip s) ≤ text_length s
unfolding lstrip
lstrip-length String.[] = ground arith
lstrip-length (String.◌∷◌ c s) = ground (arith, lstrip-length s)

rstrip-length : (s : String) → text_length (rstrip s) ≤ text_length s
unfolding rstrip
rstrip-length String.[] = ground arith
rstrip-length (String.◌∷◌ c s) =
    let rest = rstrip-length s in
    elim (Bool-cases (is_space c && str_eq (rstrip s) "")) [
      | inl blank ↦ rw blank (omega arith)
      | inr kept ↦ rw kept (omega arith)
    ]

-- Stripping takes characters away.
pub length-strip : (s : String) → text_length (strip s) ≤ text_length s
unfolding strip
length-strip s = let a = rstrip-length (lstrip s) in let b = lstrip-length s in ground arith

-- The characters of the parts, and one for the separator after each.
abbrev pub total_length : List String → ℕ
total_length [] = 0
total_length (s ∷ ss) = suc (text_length s) + total_length ss

-- A joined text has a separator of one character between its parts.
pub length-join :
    (sep : String) (s : String) (ss : List String)
    → text_length sep ≡ 1
    → suc (text_length (join sep (s ∷ ss))) ≡ total_length (s ∷ ss)
unfolding join
length-join sep s [] one = ground arith
length-join sep s (t ∷ ss) one =
    let rest = length-join sep t ss one in
    let outer = length_append s (sep ++ join sep (t ∷ ss)) in
    let inner = length_append sep (join sep (t ∷ ss)) in omega arith
