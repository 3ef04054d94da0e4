-- ===== src/Json/Escape.antt =====
-- json_escape_string of src/rcllite/json_writer.hpp, and the texts of numbers.
use rcllite.Prelude.{
  ℕ, zero, suc, ◌+◌, ◌-◌, ◌/◌, ◌%◌, ◌^◌, [], ◌∷◌, ◌++◌, Bytes, ltb, ◌==◌, if◌then◌else◌,
}

abbrev pub quote : ℕ
quote = 0x22

abbrev pub backslash : ℕ
backslash = 0x5c

-- hex[n] of "0123456789abcdef", for n below 16.
unfoldable pub hex_digit : ℕ → ℕ
hex_digit n = if ltb n 10 then n + b'0' else n - 10 + b'a'

-- What one character becomes.
unfoldable pub escape_char : ℕ → Bytes
unfolding hex_digit
escape_char c =
    if c == quote
    then backslash ∷ quote ∷ []
    else if c == backslash
    then backslash ∷ backslash ∷ []
    else if c == 0x08
    then backslash ∷ b'b' ∷ []
    else if c == 0x0c
    then backslash ∷ b'f' ∷ []
    else if c == 0x0a
    then backslash ∷ b'n' ∷ []
    else if c == 0x0d
    then backslash ∷ b'r' ∷ []
    else if c == 0x09
    then backslash ∷ b't' ∷ []
    else if ltb c 0x20
    then backslash ∷ b'u' ∷ b'0' ∷ b'0' ∷ hex_digit (c / 16) ∷ hex_digit (c % 16) ∷ []
    else c ∷ []

-- The loop over the characters.
unfoldable pub escape_chars : Bytes → Bytes
escape_chars [] = []
escape_chars (c ∷ s) = escape_char c ++ escape_chars s

unfoldable pub json_escape_string : Bytes → Bytes
json_escape_string s = quote ∷ escape_chars s ++ (quote ∷ [])

-- The decimal digits of a number, in front of `rest`. `n + 1` rounds are enough for `n`.
unfoldable pub digits : ℕ → ℕ → Bytes → Bytes
digits zero n rest = rest
digits (suc fuel) n rest =
    let front = digits fuel (n / 10) ((n % 10 + b'0') ∷ rest) in
    if ltb n 10 then (n + b'0') ∷ rest else front

-- std::to_string of an unsigned number.
unfoldable pub decimal : ℕ → Bytes
unfolding digits
decimal n = digits (suc n) n []

-- std::to_string of an int64_t, by its bit pattern.
unfoldable pub signed_decimal : ℕ → Bytes
unfolding decimal
signed_decimal v = if ltb v (2 ^ 63) then decimal v else b'-' ∷ decimal (2 ^ 64 - v)
