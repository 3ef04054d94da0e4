-- ===== src/Cdr/Reader.antt =====
-- class CdrReader of src/rcllite/cdr.hpp. A read that throws gives no reader back: every caller
-- lets go of its reader then.
use rcllite.Prelude.{
  ℕ, ◌+◌, ◌-◌, ◌*◌, Bool, not, ◌||◌, [], ◌∷◌, Bytes, Result, ok, Error, invalid_arguments, ◌>>=◌,
  unless, length, take, drop, ltb, ◌==◌,
}
use rcllite.Cdr.Endian.{le_value}
use rcllite.Cdr.Writer.{padding}

pub record CdrReader : Type 0 where
  pub buf : Bytes
  pub pos : ℕ

abbrev pub size : CdrReader → ℕ
size r = length r.buf

abbrev pub Read : Type 0 → Type 0
Read A = CdrReader → Result (A × CdrReader)

abbrev pub too_small : Error
too_small = invalid_arguments "CDR buffer too small for encapsulation header" []

abbrev pub unsupported : Error
unsupported = invalid_arguments "unsupported CDR encapsulation (expected CDR_LE)" []

abbrev pub bad_alignment : Error
bad_alignment = invalid_arguments "CDR alignment runs past end of buffer" []

abbrev pub past_end : Error
past_end = invalid_arguments "CDR read past end of buffer" []

abbrev pub bad_length : Error
bad_length = invalid_arguments "invalid string length in CDR stream" []

-- `(buf[0] << 8) | buf[1]`: the shifted byte and the low byte share no bit.
abbrev encapsulation : Bytes → ℕ
encapsulation (a ∷ b ∷ rest) = a * 256 + b
encapsulation _ = 0

-- The constructor.
unfoldable pub new_reader : Bytes → Result CdrReader
new_reader buf =
    unless (ltb (length buf) 4) too_small
      (unless (not (encapsulation buf == 0x0001)) unsupported (ok (record { buf = buf; pos = 4 })))

unfoldable pub remaining : CdrReader → ℕ
remaining r = size r - r.pos

unfoldable pub payload_offset : CdrReader → ℕ
payload_offset r = r.pos - 4

unfoldable pub align_to : ℕ → Read (Unit {0})
unfolding payload_offset
align_to n r =
    let pad = padding (payload_offset r) n in
    unless (ltb (size r) (r.pos + pad)) bad_alignment (ok (tt, record r { pos = r.pos + pad }))

unfoldable pub read_bytes : ℕ → Read Bytes
read_bytes n r =
    unless (ltb (size r) (r.pos + n)) past_end
      (ok (take n (drop r.pos r.buf), record r { pos = r.pos + n }))

-- read_aligned<T> for a type of `n` bytes.
unfoldable pub read_number : ℕ → Read ℕ
unfolding align_to read_bytes
read_number n r = do
  (done, aligned) ← align_to n r
  (bytes, after) ← read_bytes n aligned
  ok (le_value bytes, after)

-- A `bool` whose byte is neither 0 nor 1 is undefined in C++; the model takes any byte but 0 as true.
unfoldable pub read_bool : Read Bool
unfolding read_number
read_bool r = do (b, after) ← read_number 1 r; ok (not (b == 0), after)

unfoldable pub read_uint8 : Read ℕ
unfolding read_number
read_uint8 = read_number 1

unfoldable pub read_uint16 : Read ℕ
unfolding read_number
read_uint16 = read_number 2

unfoldable pub read_uint32 : Read ℕ
unfolding read_number
read_uint32 = read_number 4

unfoldable pub read_uint64 : Read ℕ
unfolding read_number
read_uint64 = read_number 8

-- The part of read_string behind the length.
unfoldable pub read_text : ℕ → Read Bytes
read_text len r =
    unless (len == 0 || ltb (size r) (r.pos + len)) bad_length
      (ok (take (len - 1) (drop r.pos r.buf), record r { pos = r.pos + len }))

unfoldable pub read_string : Read Bytes
unfolding read_uint32 read_text
read_string r = do (len, after) ← read_uint32 r; read_text len after
