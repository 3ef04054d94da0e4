-- ===== src/Cdr/Sequence.antt =====
-- write_sequence, read_sequence and the string sequences of src/rcllite/msg_traits.hpp. The
-- functions for one element are arguments, as in the source.
use rcllite.Prelude.{
  ℕ, zero, suc, ◌%◌, ◌^◌, Option, none, some, List, [], ◌∷◌, Bytes, ok, ◌>>=◌, length, ltb,
  if◌then◌else◌,
}
use mathlib.Core.Option
use rcllite.Cdr.Writer
use rcllite.Cdr.Writer.{CdrWriter, write_uint32, write_string}
use rcllite.Cdr.Reader
use rcllite.Cdr.Reader.{Read, read_uint32, read_string, remaining}

module _ {A : Type 0} where
  -- The loop over the elements.
  unfoldable pub write_elems : (A → CdrWriter → CdrWriter) → List A → CdrWriter → CdrWriter
  write_elems serialize [] w = w
  write_elems serialize (e ∷ v) w = write_elems serialize v (serialize e w)

  unfoldable pub write_sequence : (A → CdrWriter → CdrWriter) → List A → CdrWriter → CdrWriter
  unfolding write_elems
  write_sequence serialize v w =
      write_elems serialize v (write_uint32 (length v % 2 ^ 32) (Writer.align_to 4 w))

  -- One round: push the element, go on with the rest; or return false.
  unfoldable pub read_next : Read (Option (List A)) → Option A → Read (Option (List A))
  read_next rest none r = ok (none, r)
  read_next rest (some x) r = do (v, after) ← rest r; ok (Option.map (λ l. x ∷ l) v, after)

  -- An element that is `none` stands for `deserialize_elem` returning false, as does the result.
  unfoldable pub read_elems : ℕ → Read (Option A) → Read (Option (List A))
  unfolding read_next
  read_elems zero deserialize r = ok (some [], r)
  read_elems (suc n) deserialize r = do
    (e, after) ← deserialize r
    read_next (read_elems n deserialize) e after

  -- The part behind the length, with the guard against corrupt lengths.
  unfoldable pub read_counted : Read (Option A) → ℕ → Read (Option (List A))
  unfolding read_elems remaining
  read_counted deserialize n r =
      if ltb (remaining r) n then ok (none, r) else read_elems n deserialize r

  unfoldable pub read_sequence : Read (Option A) → Read (Option (List A))
  unfolding read_counted
  read_sequence deserialize r = do
    (done, aligned) ← Reader.align_to 4 r
    (n, after) ← read_uint32 aligned
    read_counted deserialize n after

unfoldable pub write_string_sequence : List Bytes → CdrWriter → CdrWriter
unfolding write_sequence
write_string_sequence = write_sequence write_string

-- The element reader always returns true.
unfoldable pub read_string_elem : Read (Option Bytes)
read_string_elem r = do (s, after) ← read_string r; ok (some s, after)

unfoldable pub read_string_sequence : Read (Option (List Bytes))
unfolding read_sequence read_string_elem
read_string_sequence = read_sequence read_string_elem
