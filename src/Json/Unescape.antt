-- ===== src/Json/Unescape.antt =====
-- A JSON reader for string literals, as RFC 8259 describes them, against the writer of
-- src/rcllite/json_writer.hpp.
use rcllite.Prelude.{
  ℕ, zero, suc, ◌+◌, ◌-◌, ◌*◌, ◌/◌, ◌%◌, ◌<◌, ◌≤◌, ◌≡◌, refl, Option, none, some, [], ◌∷◌, ◌++◌,
  Bytes, ltb, leb, ◌==◌, ◌&&◌, if◌then◌else◌, arith, append_assoc, length, length-append,
}
use mathlib.Core.Option
use rcllite.Json.Escape.{quote, backslash, hex_digit, escape_char, escape_chars, json_escape_string}

abbrev hex_value : ℕ → Option ℕ
hex_value d =
    if leb b'0' d && leb d b'9'
    then some (d - b'0')
    else if leb b'a' d && leb d b'f'
    then some (d - b'a' + 10)
    else none

-- The character that a backslash and one more character stand for.
abbrev short : ℕ → Option ℕ
short d =
    if d == quote
    then some quote
    else if d == backslash
    then some backslash
    else if d == b'b'
    then some 0x08
    else if d == b'f'
    then some 0x0c
    else if d == b'n'
    then some 0x0a
    else if d == b'r'
    then some 0x0d
    else if d == b't'
    then some 0x09
    else none

abbrev two_digits : Option ℕ → Option ℕ → Option ℕ
two_digits none lo = none
two_digits (some hi) none = none
two_digits (some hi) (some lo) = some (16 * hi + lo)

-- One character of a literal and what stands behind it; `none` inside is the quote at the end. A
-- character below 0x20 does not stand in a literal, and of the four digits of \u the first two are
-- zeros.
abbrev Step : Type 0
Step = Option (Option ℕ × Bytes)

abbrev with_rest : Bytes → Option ℕ → Step
with_rest rest none = none
with_rest rest (some c) = some (some c, rest)

abbrev read_unicode : Bytes → Step
read_unicode (a ∷ b ∷ hi ∷ lo ∷ rest) =
    if a == b'0' && b == b'0'
    then with_rest rest (two_digits (hex_value hi) (hex_value lo))
    else none
read_unicode _ = none

abbrev read_escaped : Bytes → Step
read_escaped [] = none
read_escaped (d ∷ s) = if d == b'u' then read_unicode s else with_rest s (short d)

unfoldable pub read_char : Bytes → Step
read_char [] = none
read_char (c ∷ s) =
    if c == quote
    then some (none, s)
    else if c == backslash
    then read_escaped s
    else if ltb c 0x20
    then none
    else some (some c, s)

-- A character in front of what is read behind it.
abbrev before : ℕ → Option (Bytes × Bytes) → Option (Bytes × Bytes)
before c rest = Option.map (λ r. (c ∷ r.0, r.1)) rest

-- The characters of a literal up to its last quote, and what stands behind it, within `fuel`
-- characters.
unfoldable pub unescape : ℕ → Bytes → Option (Bytes × Bytes)
unescape zero s = none
unescape (suc fuel) s = elim (read_char s) [
  | none ↦ none
  | some (none, rest) ↦ some ([], rest)
  | some (some c, rest) ↦ before c (unescape fuel rest)
]

-- A whole literal.
unfoldable pub parse_string : Bytes → Option (Bytes × Bytes)
parse_string [] = none
parse_string (c ∷ s) = if c == quote then unescape (length s) s else none

hex_value-hex_digit : (n : ℕ) → n < 16 → hex_value (hex_digit n) ≡ some n
unfolding hex_digit
hex_value-hex_digit n h = ground arith

sixteen : (c : ℕ) → 16 * (c / 16) + c % 16 ≡ c
sixteen c = omega arith

read_control :
    (c : ℕ) (rest : Bytes)
    → c < 0x20
    → read_unicode (b'0' ∷ b'0' ∷ hex_digit (c / 16) ∷ hex_digit (c % 16) ∷ rest)
      ≡ some (some c, rest)
read_control c rest h = rw (
  hex_value-hex_digit (c / 16) (omega arith),
  hex_value-hex_digit (c % 16) (omega arith),
  sixteen c,
)

-- The reader gives back the character that was escaped.
read_char-escape_char :
    (c : ℕ) (rest : Bytes) → read_char (escape_char c ++ rest) ≡ some (some c, rest)
unfolding read_char escape_char
read_char-escape_char c rest = ground (arith, read_control c rest)

length-escape_chars : (s : Bytes) → length s ≤ length (escape_chars s)
unfolding escape_chars escape_char
length-escape_chars [] = omega arith
length-escape_chars (c ∷ s) = ground (arith, length-escape_chars s)

unescape-escape_chars :
    (fuel : ℕ) (s rest : Bytes)
    → length s < fuel
    → unescape fuel (escape_chars s ++ (quote ∷ rest)) ≡ some (s, rest)
unfolding unescape escape_chars
unescape-escape_chars zero s rest h = absurd (omega arith)
unescape-escape_chars (suc fuel) [] rest h = unfold read_char in refl
unescape-escape_chars (suc fuel) (c ∷ s) rest h = rw (
  append_assoc (escape_char c) (escape_chars s) (quote ∷ rest),
  unescape,
  read_char-escape_char c (escape_chars s ++ (quote ∷ rest)),
  unescape-escape_chars fuel s rest (omega arith),
)

-- A JSON reader finds in a literal that json_escape_string wrote the text that was escaped, and
-- ends where the literal ends.
pub json_escape_string-parse :
    (s rest : Bytes) → parse_string (json_escape_string s ++ rest) ≡ some (s, rest)
unfolding parse_string json_escape_string
json_escape_string-parse s rest =
    rw append_assoc
      (unescape-escape_chars _ s rest (long_enough (escape_chars s) (length-escape_chars s)))
  where
    long_enough : (t : Bytes) → length s ≤ length t → length s < length (t ++ (quote ∷ rest))
    long_enough t h = omega (arith, length-append t (quote ∷ rest))
