-- ===== src/Cdr/SequenceTrip.antt =====
-- Sequences (src/rcllite/msg_traits.hpp) that are written and read.
use rcllite.Prelude.{
  ◌+◌, ◌^◌, ◌≤◌, ◌<◌, ◌≡◌, refl, sym, ap, false, Option, some, List, [], ◌∷◌, ◌++◌, append-nil,
  arith, Bytes, ok, length, length-append, All, ltb, ltb-false,
}
use native.Mathlib.Nat.{mod-eq_of_lt}
use mathlib.Core.Option
use rcllite.Cdr.Writer.{CdrWriter, write_string}
use rcllite.Cdr.Reader.{Read, remaining}
use rcllite.Cdr.RoundTrip.{
  at, ReadsBack, then-ReadsBack, map-ReadsBack, align-ReadsBack, uint32-ReadsBack, string-ReadsBack,
}
use rcllite.Cdr.Sequence.{
  write_elems, write_sequence, read_elems, read_counted, read_sequence, write_string_sequence,
  read_string_elem, read_string_sequence,
}

nothing-ReadsBack : {A : Type 0} (a : A) (w : CdrWriter) → ReadsBack (λ r. ok (a, r)) a w w
nothing-ReadsBack a w = record {
  added = [];
  appends = sym (append-nil w.buf);
  reads = λ rest. rw append-nil refl;
}

-- An element is read back, and takes a byte at least.
pub record ElemTrip {A : Type 0} (serialize : A → CdrWriter → CdrWriter)
    (deserialize : Read (Option A)) (a : A) (w : CdrWriter) : Type 0 where
  pub trip : ReadsBack deserialize (some a) w (serialize a w)
  pub takes : length w.buf < length (serialize a w).buf

module _ {A : Type 0} (serialize : A → CdrWriter → CdrWriter) (deserialize : Read (Option A))
    (Fits : A → Type 0)
    (elem : (a : A) (w : CdrWriter) → Fits a → ElemTrip serialize deserialize a w) where
  pub elems-ReadsBack :
      (v : List A) (w : CdrWriter)
      → All Fits v
      → ReadsBack (read_elems (length v) deserialize) (some v) w (write_elems serialize v w)
        × (length w.buf + length v ≤ length (write_elems serialize v w).buf)
  unfolding read_elems write_elems
  elems-ReadsBack [] w h = (nothing-ReadsBack (some []) w, omega arith)
  elems-ReadsBack (e ∷ v) w (he, hv) =
      let first = elem e w he in
      let (rest, long) = elems-ReadsBack v (serialize e w) hv in
      (
        then-ReadsBack _ first.trip (map-ReadsBack (Option.map (λ l. e ∷ l)) rest),
        omega (arith, first.takes),
      )

  -- The guard against corrupt lengths lets every written sequence pass.
  counted-ReadsBack :
      (v : List A) (w : CdrWriter)
      → All Fits v
      → ReadsBack (read_counted deserialize (length v)) (some v) w (write_elems serialize v w)
  unfolding read_counted
  counted-ReadsBack v w h =
      let (p, long) = elems-ReadsBack v w h in
      record {
        added = p.added;
        appends = p.appends;
        reads = λ rest.
            rw
              (enough p.added rest
                (omega (arith, ap length p.appends, length-append w.buf p.added)))
              (p.reads rest);
      }
    where
      enough :
          (added rest : Bytes)
          → length v ≤ length added
          → ltb (remaining (at w.buf (added ++ rest))) (length v) ≡ false
      enough added rest k =
          ltb-false _ _
            (omega (arith, length-append w.buf (added ++ rest), length-append added rest))

  pub sequence-ReadsBack :
      (v : List A) (w : CdrWriter)
      → All Fits v
      → length v < 2 ^ 32
      → ReadsBack (read_sequence deserialize) (some v) w (write_sequence serialize v w)
  unfolding read_sequence write_sequence
  sequence-ReadsBack v w h short = rw (mod-eq_of_lt short) (
      then-ReadsBack _ (align-ReadsBack 4 w)
        (then-ReadsBack _ (uint32-ReadsBack (length v) _ short) (counted-ReadsBack v _ h)))

-- Strings as elements.
abbrev pub IsShort : Bytes → Type 0
IsShort s = length s + 1 < 2 ^ 32

string_grows : (s : Bytes) (w : CdrWriter) → length w.buf < length (write_string s w).buf
unfolding write_string
string_grows s w = omega (arith, length-append {0})

string_elem : (s : Bytes) (w : CdrWriter) → IsShort s → ElemTrip write_string read_string_elem s w
unfolding read_string_elem
string_elem s w h = record {
  trip = map-ReadsBack some (string-ReadsBack s w h);
  takes = string_grows s w;
}

-- A sequence of strings is read back as it was written, whatever stands in front of it and
-- behind it, if the number of strings, and the length of each with its NUL, are below 2 ^ 32.
pub string_sequence-ReadsBack :
    (v : List Bytes) (w : CdrWriter)
    → All IsShort v
    → length v < 2 ^ 32
    → ReadsBack read_string_sequence (some v) w (write_string_sequence v w)
unfolding read_string_sequence write_string_sequence
string_sequence-ReadsBack = sequence-ReadsBack write_string read_string_elem IsShort string_elem
