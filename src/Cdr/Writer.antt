-- ===== src/Cdr/Writer.antt =====
-- class CdrWriter of src/rcllite/cdr.hpp.
use rcllite.Prelude.{
  ℕ, ◌+◌, ◌-◌, ◌%◌, ◌^◌, Bool, [], ◌∷◌, ◌++◌, Bytes, length, replicate, if◌then◌else◌,
}
use rcllite.Cdr.Endian.{le_bytes}

pub record CdrWriter : Type 0 where
  pub buf : Bytes

-- The constructor writes the encapsulation header: CDR_LE, no options.
unfoldable pub new_writer : CdrWriter
new_writer = record { buf = 0x00 ∷ 0x01 ∷ 0x00 ∷ 0x00 ∷ [] }

unfoldable pub payload : CdrWriter → Bytes
payload w = w.buf

unfoldable pub payload_offset : CdrWriter → ℕ
payload_offset w = length w.buf - 4

-- (n - (offset % n)) % n
abbrev pub padding : ℕ → ℕ → ℕ
padding offset n = (n - offset % n) % n

unfoldable pub align_to : ℕ → CdrWriter → CdrWriter
unfolding payload_offset
align_to n w = record { buf = w.buf ++ replicate (padding (payload_offset w) n) 0 }

unfoldable pub write_bytes : Bytes → CdrWriter → CdrWriter
write_bytes bytes w = record { buf = w.buf ++ bytes }

unfoldable pub write_aligned : Bytes → ℕ → CdrWriter → CdrWriter
unfolding align_to write_bytes
write_aligned bytes alignment w = write_bytes bytes (align_to alignment w)

-- write_uint8, write_uint16 and so on: `size` bytes of the value, aligned to `size`. The same
-- function serves the signed and the floating types, by their bit patterns.
unfoldable pub write_number : ℕ → ℕ → CdrWriter → CdrWriter
unfolding write_aligned
write_number size v = write_aligned (le_bytes size v) size

unfoldable pub write_bool : Bool → CdrWriter → CdrWriter
unfolding write_number
write_bool v = write_number 1 (if v then 1 else 0)

unfoldable pub write_uint8 : ℕ → CdrWriter → CdrWriter
unfolding write_number
write_uint8 = write_number 1

unfoldable pub write_uint16 : ℕ → CdrWriter → CdrWriter
unfolding write_number
write_uint16 = write_number 2

unfoldable pub write_uint32 : ℕ → CdrWriter → CdrWriter
unfolding write_number
write_uint32 = write_number 4

unfoldable pub write_uint64 : ℕ → CdrWriter → CdrWriter
unfolding write_number
write_uint64 = write_number 8

-- uint32 length with the NUL, the bytes, and the NUL. The length wraps at 2 ^ 32.
unfoldable pub write_string : Bytes → CdrWriter → CdrWriter
unfolding write_uint32
write_string s w = write_bytes (s ++ (0 ∷ [])) (write_uint32 ((length s + 1) % 2 ^ 32) w)
