-- ===== src/Topology/Payload.antt =====
-- The payload of a raw publisher: payload_from_hex and default_payload of
-- src/rcllite/graph_executor.cpp.
use rcllite.Prelude.{
  ℕ, ◌+◌, ◌-◌, ◌*◌, ◌%◌, ◌&&◌, Option, none, some, [], ◌∷◌, Bytes, length, leb, ◌==◌, if◌then◌else◌,
  Result, ok, err, Error, invalid_arguments,
}

-- The lambda; `none` is its -1.
unfoldable pub nibble : ℕ → Option ℕ
nibble c =
    if leb b'0' c && leb c b'9'
    then some (c - b'0')
    else if leb b'a' c && leb c b'f'
    then some (c - b'a' + 10)
    else if leb b'A' c && leb c b'F'
    then some (c - b'A' + 10)
    else none

abbrev pub invalid_digit : Bytes → Error
invalid_digit what = invalid_arguments "{}: invalid hex digit" (what ∷ [])

abbrev pub odd_length : Bytes → Error
odd_length what = invalid_arguments "{}: odd hex length" (what ∷ [])

-- A byte in front of the rest.
abbrev pub byte_then : Bytes → Option ℕ → Option ℕ → Result Bytes → Result Bytes
byte_then what none lo rest = err (invalid_digit what)
byte_then what (some hi) none rest = err (invalid_digit what)
byte_then what (some hi) (some lo) (ok bytes) = ok ((16 * hi + lo) ∷ bytes)
byte_then what (some hi) (some lo) (err e) = err e

-- The loop, two characters at a time.
unfoldable pub hex_bytes : Bytes → Bytes → Result Bytes
unfolding nibble
hex_bytes what [] = ok []
hex_bytes what (c ∷ []) = ok []
hex_bytes what (c ∷ d ∷ hex) = byte_then what (nibble c) (nibble d) (hex_bytes what hex)

unfoldable pub payload_from_hex : Bytes → Bytes → Result Bytes
unfolding hex_bytes
payload_from_hex hex what =
    if length hex % 2 == 0 then hex_bytes what hex else err (odd_length what)

unfoldable pub default_payload : Bytes
default_payload = 0x00 ∷ 0x01 ∷ 0x00 ∷ 0x00 ∷ []
