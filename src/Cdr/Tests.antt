-- ===== src/Cdr/Tests.antt =====
-- Runs of src/rcllite/cdr.hpp and src/rcllite/msg_traits.hpp, and the theorems at concrete inputs.
use rcllite.Prelude.{◌≤◌, ◌≡◌, refl, [], ◌∷◌, arith, text, length, ok, err, some, none}
use rcllite.Cdr.Endian.{le_bytes, le_value}
use rcllite.Cdr.Writer.{CdrWriter, new_writer, write_uint8, write_string}
use rcllite.Cdr.Reader.{CdrReader, new_reader, remaining, read_string, unsupported, too_small}
use rcllite.Cdr.RoundTrip.{ReadsBack}
use rcllite.Cdr.Sequence.{read_string_sequence, write_string_sequence}
use rcllite.Cdr.SequenceTrip.{string_sequence-ReadsBack}
use rcllite.Cdr.Bounds.{string_sequence-Stays}

abbrev one_byte : CdrWriter
one_byte = record { buf = 0 ∷ 1 ∷ 0 ∷ 0 ∷ 7 ∷ [] }

-- A string behind one byte is aligned to four.
string_layout :
    (write_string (text "ab") (write_uint8 7 new_writer)).buf
    ≡ 0 ∷ 1 ∷ 0 ∷ 0 ∷ 7 ∷ 0 ∷ 0 ∷ 0 ∷ 3 ∷ 0 ∷ 0 ∷ 0 ∷ 97 ∷ 98 ∷ 0 ∷ []
unfolding write_string write_uint8 new_writer le_bytes
string_layout = refl

big_endian : new_reader (0 ∷ 0 ∷ 0 ∷ 0 ∷ []) ≡ err unsupported
unfolding new_reader
big_endian = refl

short_buffer : new_reader (0 ∷ 1 ∷ []) ≡ err too_small
unfolding new_reader
short_buffer = refl

abbrev names_reader : CdrReader
names_reader = record { buf = 0 ∷ 1 ∷ 0 ∷ 0 ∷ 1 ∷ 0 ∷ 0 ∷ 0 ∷ 2 ∷ 0 ∷ 0 ∷ 0 ∷ 97 ∷ 0 ∷ []; pos = 4 }

abbrev names_end : CdrReader
names_end = record names_reader { pos = 14 }

names_read : read_string_sequence names_reader ≡ ok (some (text "a" ∷ []), names_end)
unfolding read_string_sequence read_string le_value remaining
names_read = refl

-- A length of 255 with no elements behind it is refused.
corrupt_read :
    read_string_sequence (record { buf = 0 ∷ 1 ∷ 0 ∷ 0 ∷ 255 ∷ 0 ∷ 0 ∷ 0 ∷ []; pos = 4 })
    ≡ ok (none, record { buf = 0 ∷ 1 ∷ 0 ∷ 0 ∷ 255 ∷ 0 ∷ 0 ∷ 0 ∷ []; pos = 8 })
unfolding read_string_sequence read_string le_value remaining
corrupt_read = refl

string_sequence-ReadsBack_example :
    ReadsBack read_string_sequence
      (some (text "a" ∷ text "" ∷ []))
      one_byte
      (write_string_sequence (text "a" ∷ text "" ∷ []) one_byte)
string_sequence-ReadsBack_example =
    string_sequence-ReadsBack (text "a" ∷ text "" ∷ []) one_byte (omega arith) (omega arith)

string_sequence-Stays_example :
    (names_end.buf ≡ names_reader.buf)
    × (names_reader.pos ≤ names_end.pos)
    × (names_end.pos ≤ length names_end.buf)
string_sequence-Stays_example =
    string_sequence-Stays names_reader (some (text "a" ∷ [])) names_end (omega arith) names_read
