-- ===== src/Cdr/RoundTrip.antt =====
-- What CdrReader reads of what CdrWriter wrote (src/rcllite/cdr.hpp), in front of other bytes.
use rcllite.Prelude.{
  ℕ, ◌+◌, ◌-◌, ◌^◌, ◌<◌, ◌≡◌, refl, ap, ◌∙◌, Bool, true, false, [], ◌∷◌, ◌++◌, append_assoc, arith,
  Bytes, ok, ◌>>=◌, length, take, replicate, length-append, length-replicate, drop-append,
  take-append,
}
use native.Mathlib.Nat.{mod-eq_of_lt}
use rcllite.Cdr.Endian.{le_bytes, length-le_bytes, le_value-le_bytes}
use rcllite.Cdr.Writer
use rcllite.Cdr.Writer.{
  CdrWriter, new_writer, padding, write_bytes, write_number, write_bool, write_uint32, write_uint64,
  write_string,
}
use rcllite.Cdr.Reader
use rcllite.Cdr.Reader.{
  CdrReader, Read, new_reader, read_bytes, read_number, read_bool, read_uint32, read_uint64,
  read_text, read_string,
}

-- A reader that stands where a writer stood: behind the bytes `before`.
abbrev pub at : Bytes → Bytes → CdrReader
at before rest = record { buf = before ++ rest; pos = length before }

-- The writer went from `w` to `w'` by adding bytes, and `read` takes just these for `a`.
pub record ReadsBack {A : Type 0} (read : Read A) (a : A) (w w' : CdrWriter) : Type 0 where
  pub added : Bytes
  pub appends : w'.buf ≡ w.buf ++ added
  pub reads : (rest : Bytes) → read (at w.buf (added ++ rest)) ≡ ok (a, at (w.buf ++ added) rest)

align_at :
    (n : ℕ) (before pad rest : Bytes)
    → length pad ≡ padding (length before - 4) n
    → Reader.align_to n (at before (pad ++ rest)) ≡ ok (tt, at (before ++ pad) rest)
unfolding Reader.align_to
align_at n before pad rest h = ground (
  arith,
  append_assoc before pad rest,
  length-append before (pad ++ rest),
  length-append pad rest,
  length-append before pad,
)

read_bytes_at :
    (n : ℕ) (before bytes rest : Bytes)
    → length bytes ≡ n
    → read_bytes n (at before (bytes ++ rest)) ≡ ok (bytes, at (before ++ bytes) rest)
unfolding read_bytes
read_bytes_at n before bytes rest h =
    rw (← h, drop-append, take-append)
      (ground (
        arith,
        append_assoc before bytes rest,
        length-append before (bytes ++ rest),
        length-append bytes rest,
        length-append before bytes,
      ))

-- A step of the writer that pads to `n` and adds `n` bytes is taken by the reader's two steps.
read_number_at :
    (n v : ℕ) (before rest : Bytes)
    → v < 256 ^ n
    → read_number n
        (at before (replicate (padding (length before - 4) n) 0 ++ (le_bytes n v ++ rest)))
      ≡ ok (v, at ((before ++ replicate (padding (length before - 4) n) 0) ++ le_bytes n v) rest)
unfolding read_number
read_number_at n v before rest h = rw (
  align_at n before (replicate (padding (length before - 4) n) 0) (le_bytes n v ++ rest)
      (length-replicate (padding (length before - 4) n) 0),
  read_bytes_at n (before ++ replicate (padding (length before - 4) n) 0) (le_bytes n v) rest
      (length-le_bytes n v),
  le_value-le_bytes n v h,
)

-- Every number type of CDR: what is written in `n` bytes is read back, with its padding.
pub number-ReadsBack :
    (n v : ℕ) (w : CdrWriter) → v < 256 ^ n → ReadsBack (read_number n) v w (write_number n v w)
unfolding write_number
number-ReadsBack n v w h =
    let pad = replicate (padding (length w.buf - 4) n) 0 in
    record {
      added = pad ++ le_bytes n v;
      appends = append_assoc w.buf pad (le_bytes n v);
      reads = λ rest.
          rw (append_assoc pad (le_bytes n v) rest, ← append_assoc w.buf pad (le_bytes n v))
            (read_number_at n v w.buf rest h);
    }

abbrev pub then_read : {A B : Type 0} → Read A → (A → Read B) → Read B
then_read first second r = first r >>= λ p. second p.0 p.1

-- Two steps of the writer, one after the other, against two steps of the reader.
pub then-ReadsBack :
    {A B : Type 0} {first : Read A} (second : A → Read B) {a : A} {b : B} {w w' w'' : CdrWriter}
    → ReadsBack first a w w'
    → ReadsBack (second a) b w' w''
    → ReadsBack (then_read first second) b w w''
then-ReadsBack second {w = w} {w'' = w''} p q = record {
  added = p.added ++ q.added;
  appends = q.appends ∙ ap (λ l. l ++ q.added) p.appends ∙ append_assoc w.buf p.added q.added;
  reads = λ rest.
      rw
        (
          append_assoc p.added q.added rest,
          p.reads (q.added ++ rest),
          ← append_assoc w.buf p.added q.added,
        )
        (rw p.appends at (q.reads rest));
}

-- A reader's last step, which only changes the value.
pub map-ReadsBack :
    {A B : Type 0} {read : Read A} (f : A → B) {a : A} {w w' : CdrWriter}
    → ReadsBack read a w w'
    → ReadsBack (λ r. read r >>= λ p. ok (f p.0, p.1)) (f a) w w'
map-ReadsBack f p = record {
  added = p.added;
  appends = p.appends;
  reads = λ rest. rw (p.reads rest);
}

pub bool-ReadsBack : (v : Bool) (w : CdrWriter) → ReadsBack read_bool v w (write_bool v w)
unfolding read_bool write_bool
bool-ReadsBack true w = map-ReadsBack _ (number-ReadsBack 1 1 w (omega arith))
bool-ReadsBack false w = map-ReadsBack _ (number-ReadsBack 1 0 w (omega arith))

pub uint32-ReadsBack :
    (v : ℕ) (w : CdrWriter) → v < 2 ^ 32 → ReadsBack read_uint32 v w (write_uint32 v w)
unfolding read_uint32 write_uint32
uint32-ReadsBack v w h = number-ReadsBack 4 v w (omega arith)

pub uint64-ReadsBack :
    (v : ℕ) (w : CdrWriter) → v < 2 ^ 64 → ReadsBack read_uint64 v w (write_uint64 v w)
unfolding read_uint64 write_uint64
uint64-ReadsBack v w h = number-ReadsBack 8 v w (omega arith)

take_text : (s rest : Bytes) → take (length s + 1 - 1) ((s ++ (0 ∷ [])) ++ rest) ≡ s
take_text s rest = rw (back, append_assoc s (0 ∷ []) rest) (take-append s ((0 ∷ []) ++ rest))
  where
    back : length s + 1 - 1 ≡ length s
    back = omega arith

text-ReadsBack :
    (s : Bytes) (w : CdrWriter)
    → ReadsBack (read_text (length s + 1)) s w (write_bytes (s ++ (0 ∷ [])) w)
unfolding read_text write_bytes
text-ReadsBack s w = record {
  added = s ++ (0 ∷ []);
  appends = refl;
  reads = λ rest.
      rw (drop-append w.buf ((s ++ (0 ∷ [])) ++ rest), take_text s rest)
        (ground (
          arith,
          append_assoc w.buf (s ++ (0 ∷ [])) rest,
          length-append w.buf ((s ++ (0 ∷ [])) ++ rest),
          length-append (s ++ (0 ∷ [])) rest,
          length-append s (0 ∷ []),
          length-append w.buf (s ++ (0 ∷ [])),
        ));
}

-- The length prefix, the bytes and the NUL of a string are read back as the string.
pub string-ReadsBack :
    (s : Bytes) (w : CdrWriter)
    → length s + 1 < 2 ^ 32
    → ReadsBack read_string s w (write_string s w)
unfolding read_string write_string
string-ReadsBack s w h =
    rw (mod-eq_of_lt h)
      (then-ReadsBack read_text (uint32-ReadsBack (length s + 1) w h) (text-ReadsBack s _))

pub align-ReadsBack :
    (n : ℕ) (w : CdrWriter) → ReadsBack (Reader.align_to n) tt w (Writer.align_to n w)
unfolding Writer.align_to
align-ReadsBack n w = record {
  added = replicate (padding (length w.buf - 4) n) 0;
  appends = refl;
  reads = λ rest. align_at n w.buf _ rest (length-replicate (padding (length w.buf - 4) n) 0);
}

-- A new reader stands where a new writer stood.
pub new_reader_starts :
    (t : Bytes) → new_reader ((new_writer).buf ++ t) ≡ ok (at (new_writer).buf t)
unfolding new_reader new_writer
new_reader_starts t = ground arith
