-- ===== src/Topology/Hex.antt =====
-- payload_from_hex of src/rcllite/graph_executor.cpp against a printer of hexadecimal digits.
use rcllite.Prelude.{
  ℕ, ◌+◌, ◌*◌, ◌/◌, ◌%◌, ◌<◌, ◌≡◌, refl, ap, arith, All, Option, none, some, [], ◌∷◌, Bytes, length,
  Bool, true, false, leb, ◌==◌, ◌&&◌, ◌||◌, Result, ok, err, Error, map, ◌⊎◌, Bool-cases, inl, inr,
  not, if◌then◌else◌,
}
use rcllite.Json.Escape.{hex_digit}
use rcllite.Topology.Payload.{
  nibble, byte_then, hex_bytes, payload_from_hex, odd_length, invalid_digit,
}

-- Two digits for each byte.
unfoldable pub to_hex : Bytes → Bytes
to_hex [] = []
to_hex (b ∷ bytes) = hex_digit (b / 16) ∷ hex_digit (b % 16) ∷ to_hex bytes

-- A digit of either case.
abbrev pub is_hex : ℕ → Bool
is_hex c = (leb b'0' c && leb c b'9') || (leb b'a' c && leb c b'f') || (leb b'A' c && leb c b'F')

-- Whether there is another character than a digit.
unfoldable pub any_other : Bytes → Bool
any_other [] = false
any_other (c ∷ s) = not (is_hex c) || any_other s

-- The lower case of a digit.
abbrev pub lower : ℕ → ℕ
lower c = if leb b'A' c && leb c b'F' then c + 32 else c

nibble-hex_digit : (n : ℕ) → n < 16 → nibble (hex_digit n) ≡ some n
unfolding nibble hex_digit
nibble-hex_digit n h = ground arith

even-length : (bytes : Bytes) → length (to_hex bytes) % 2 ≡ 0
unfolding to_hex
even-length [] = omega arith
even-length (b ∷ bytes) = omega (arith, even-length bytes)

halves : (b : ℕ) → 16 * (b / 16) + b % 16 ≡ b
halves b = omega arith

hex_bytes-to_hex :
    (what bytes : Bytes) → All (λ b. b < 256) bytes → hex_bytes what (to_hex bytes) ≡ ok bytes
unfolding hex_bytes to_hex
hex_bytes-to_hex what [] h = refl
hex_bytes-to_hex what (b ∷ bytes) h =
    rw
      (
        nibble-hex_digit (b / 16) (omega (arith, h.0)),
        nibble-hex_digit (b % 16) (omega arith),
        hex_bytes-to_hex what bytes h.1,
      )
      (ap (λ c. ok (c ∷ bytes)) (halves b))

-- The hexadecimal digits of a payload are read back as that payload.
pub payload_from_hex-to_hex :
    (bytes what : Bytes)
    → All (λ b. b < 256) bytes
    → payload_from_hex (to_hex bytes) what ≡ ok bytes
unfolding payload_from_hex
payload_from_hex-to_hex bytes what h = rw (even-length bytes) (hex_bytes-to_hex what bytes h)

to_hex_nibbles :
    (c d hi lo : ℕ)
    → nibble c ≡ some hi
    → nibble d ≡ some lo
    → (hex_digit ((16 * hi + lo) / 16) ≡ lower c) × (hex_digit ((16 * hi + lo) % 16) ≡ lower d)
unfolding nibble hex_digit
to_hex_nibbles c d hi lo h k = ground arith

-- What is read, in front of the digits behind, is what is printed.
printed_step :
    (c d : ℕ) (hex what bytes : Bytes) (hi lo : Option ℕ) (rest : Result Bytes)
    → nibble c ≡ hi
    → nibble d ≡ lo
    → ((tail : Bytes) → rest ≡ ok tail → to_hex tail ≡ map lower hex)
    → byte_then what hi lo rest ≡ ok bytes
    → to_hex bytes ≡ map lower (c ∷ d ∷ hex)
unfolding to_hex
printed_step c d hex what bytes none lo rest h k ih e = absurd (ground (arith, e))
printed_step c d hex what bytes (some hi) none rest h k ih e = absurd (ground (arith, e))
printed_step c d hex what bytes (some hi) (some lo) (err x) h k ih e = absurd (ground (arith, e))
printed_step c d hex what bytes (some hi) (some lo) (ok tail) h k ih e =
    grind (arith, to_hex_nibbles c d hi lo h k, ih tail refl, e)

printed :
    (hex what bytes : Bytes)
    → length hex % 2 ≡ 0
    → hex_bytes what hex ≡ ok bytes
    → to_hex bytes ≡ map lower hex
unfolding hex_bytes to_hex
printed [] what bytes even e = ground (arith, e)
printed (c ∷ []) what bytes even e = absurd (omega (arith, even))
printed (c ∷ d ∷ hex) what bytes even e =
    printed_step c d hex what bytes (nibble c) (nibble d) (hex_bytes what hex) refl refl
      (λ tail p. printed hex what tail (omega (arith, even)) p) e

-- The digits of a payload that was read are the text, in lower case.
pub payload_from_hex-printed :
    (hex what bytes : Bytes) → payload_from_hex hex what ≡ ok bytes → to_hex bytes ≡ map lower hex
unfolding payload_from_hex
payload_from_hex-printed hex what bytes e =
    printed hex what bytes (ground (arith, e)) (ground (arith, e))

not_hex : (c : ℕ) → nibble c ≡ none → is_hex c ≡ false
unfolding nibble
not_hex c h = ground arith

error_step :
    (c d : ℕ) (hex what : Bytes) (e : Error) (hi lo : Option ℕ) (rest : Result Bytes)
    → nibble c ≡ hi
    → nibble d ≡ lo
    → (rest ≡ err e → (any_other hex ≡ true) × (e ≡ invalid_digit what))
    → byte_then what hi lo rest ≡ err e
    → (any_other (c ∷ d ∷ hex) ≡ true) × (e ≡ invalid_digit what)
unfolding any_other
error_step c d hex what e none lo rest h k ih p = rw (not_hex c h) (refl, cc)
error_step c d hex what e (some hi) none rest h k ih p = rw (not_hex d k) (ground arith, cc)
error_step c d hex what e (some hi) (some lo) (ok tail) h k ih p = absurd (ground (arith, p))
error_step c d hex what e (some hi) (some lo) (err x) h k ih p =
    let r = ih p in rw (r.0, r.1) (ground arith, refl)

digit_error :
    (hex what : Bytes) (e : Error)
    → hex_bytes what hex ≡ err e
    → (any_other hex ≡ true) × (e ≡ invalid_digit what)
unfolding hex_bytes any_other
digit_error [] what e h = absurd (ground (arith, h))
digit_error (c ∷ []) what e h = absurd (ground (arith, h))
digit_error (c ∷ d ∷ hex) what e h =
    error_step c d hex what e (nibble c) (nibble d) (hex_bytes what hex) refl refl
      (λ p. digit_error hex what e p) h

-- If payload_from_hex throws, then the text has an odd length and the error says so, or it has
-- an even length and another character than a hexadecimal digit, and the error says that.
pub payload_from_hex-error :
    (hex what : Bytes) (e : Error)
    → payload_from_hex hex what ≡ err e
    → ((length hex % 2 ≡ 1) × (e ≡ odd_length what))
      ⊎ ((length hex % 2 ≡ 0) × (any_other hex ≡ true) × (e ≡ invalid_digit what))
unfolding payload_from_hex
payload_from_hex-error hex what e h = elim (Bool-cases (length hex % 2 == 0)) [
  | inl even ↦ let r = digit_error hex what e (rw even at h) in inr (ground (arith, even), r.0, r.1)
  | inr odd ↦ inl (ground (arith, odd), ground (arith, rw odd at h))
]
