-- ===== src/Cdr/Bounds.antt =====
-- Where CdrReader (src/rcllite/cdr.hpp) stands in its buffer, and what CdrWriter aligns to.
use rcllite.Prelude.{
  ℕ, zero, suc, ◌+◌, ◌-◌, ◌%◌, ◌≤◌, ◌<◌, ◌≡◌, refl, sym, ap, ◌∙◌, Option, none, some, List, ◌++◌,
  arith, Bytes, Result, ok, err, ◌>>=◌, length, length-append, length-replicate, replicate, ltb,
  Bool-cases, inl, inr,
}
use native.Mathlib.Nat.{add-mod-mod, mod-add-mod, mod_self, mod-lt}
use rcllite.Cdr.Writer
use rcllite.Cdr.Writer.{CdrWriter, padding}
use rcllite.Cdr.Reader
use rcllite.Cdr.Reader.{
  CdrReader, Read, read_bytes, read_number, read_uint32, read_text, read_string, remaining,
}
use rcllite.Cdr.RoundTrip.{then_read}
use rcllite.Cdr.Sequence.{
  read_next, read_elems, read_counted, read_sequence, read_string_elem, read_string_sequence,
}

-- The reader went on inside its buffer.
pub record Forward (r r' : CdrReader) : Type 0 where
  pub same_buf : r'.buf ≡ r.buf
  pub onward : r.pos ≤ r'.pos
  pub within : r'.pos ≤ length r'.buf

pub record Stays {A : Type 0} (read : Read A) : Type 0 where
  pub from :
      (r : CdrReader) (a : A) (r' : CdrReader)
      → r.pos ≤ length r.buf
      → read r ≡ ok (a, r')
      → Forward r r'

align-Stays : (n : ℕ) → Stays (Reader.align_to n)
unfolding Reader.align_to
align-Stays n = record { from = λ r a r' h e. ground arith }

bytes-Stays : (n : ℕ) → Stays (read_bytes n)
unfolding read_bytes
bytes-Stays n = record { from = λ r a r' h e. ground arith }

text-Stays : (len : ℕ) → Stays (read_text len)
unfolding read_text
text-Stays n = record { from = λ r a r' h e. ground arith }

pure-Stays : {A : Type 0} (a : A) → Stays (λ r. ok (a, r))
pure-Stays a = record { from = λ r b r' h e. ground arith }

Forward-trans : {r s t : CdrReader} → Forward r s → Forward s t → Forward r t
Forward-trans p q = record {
  same_buf = q.same_buf ∙ p.same_buf;
  onward = omega arith;
  within = q.within;
}

then-from :
    {A B : Type 0} {first : Read A} {second : A → Read B}
    → Stays first
    → ((a : A) → Stays (second a))
    → (r : CdrReader) (got : Result (A × CdrReader)) (b : B) (r' : CdrReader) → r.pos ≤ length r.buf
    → first r ≡ got
    → (got >>= λ p. second p.0 p.1) ≡ ok (b, r')
    → Forward r r'
then-from p q r (err e) b r' h eq back = cc
then-from p q r (ok (a, s)) b r' h eq back =
    let one = p.from r a s h eq in Forward-trans one ((q a).from s b r' one.within back)

pub then-Stays :
    {A B : Type 0} {first : Read A} (second : A → Read B)
    → Stays first
    → ((a : A) → Stays (second a))
    → Stays (then_read first second)
then-Stays {first = first} second p q = record {
  from = λ r b r' h e. then-from p q r (first r) b r' h refl e;
}

number-Stays : (n : ℕ) → Stays (read_number n)
unfolding read_number
number-Stays n =
    then-Stays _ (align-Stays n) (λ u. then-Stays _ (bytes-Stays n) (λ b. pure-Stays _))

uint32-Stays : Stays read_uint32
unfolding read_uint32
uint32-Stays = number-Stays 4

-- A string that is read lies inside the buffer.
pub string-Stays : Stays read_string
unfolding read_string
string-Stays = then-Stays _ uint32-Stays text-Stays

module _ {A : Type 0} (deserialize : Read (Option A)) (elem : Stays deserialize) where
  next-Stays :
      {rest : Read (Option (List A))} → Stays rest → (e : Option A) → Stays (read_next rest e)
  unfolding read_next
  next-Stays ih none = pure-Stays _
  next-Stays ih (some x) = then-Stays _ ih (λ v. pure-Stays _)

  elems-Stays : (n : ℕ) → Stays (read_elems n deserialize)
  unfolding read_elems
  elems-Stays zero = pure-Stays _
  elems-Stays (suc n) = then-Stays _ elem (next-Stays (elems-Stays n))

  counted-Stays : (n : ℕ) → Stays (read_counted deserialize n)
  unfolding read_counted
  counted-Stays n = record {
    from = λ r a r' h e. elim (Bool-cases (ltb (remaining r) n)) [
      | inl corrupt ↦ (pure-Stays _).from r a r' h (rw corrupt at e)
      | inr fine ↦ (elems-Stays n).from r a r' h (rw fine at e)
    ];
  }

  -- Reading a sequence stays in the buffer if reading an element does, corrupt lengths included.
  pub sequence-Stays : Stays (read_sequence deserialize)
  unfolding read_sequence
  sequence-Stays = then-Stays _ (align-Stays 4) (λ u. then-Stays _ uint32-Stays counted-Stays)

string_elem-Stays : Stays read_string_elem
unfolding read_string_elem
string_elem-Stays = then-Stays _ string-Stays (λ s. pure-Stays _)

-- Whatever the bytes are, a string sequence that is read leaves the buffer as it was and the
-- position inside it, not before where it stood.
pub string_sequence-Stays :
    (r : CdrReader) (v : Option (List Bytes)) (r' : CdrReader)
    → r.pos ≤ length r.buf
    → read_string_sequence r ≡ ok (v, r')
    → (r'.buf ≡ r.buf) × (r.pos ≤ r'.pos) × (r'.pos ≤ length r'.buf)
unfolding read_string_sequence
string_sequence-Stays r v r' h e =
    let f = (sequence-Stays read_string_elem string_elem-Stays).from r v r' h e in
    (f.same_buf, f.onward, f.within)

padded_offset : (o n : ℕ) → 0 < n → (o + padding o n) % n ≡ 0
padded_offset o n h =
    add-mod-mod o (n - o % n) n
    ∙ sym (mod-add-mod o n (n - o % n))
    ∙ ap (λ t. t % n) (fill (mod-lt o h))
    ∙ mod_self n
  where
    fill : o % n < n → o % n + (n - o % n) ≡ n
    fill k = omega arith

behind : (a b p : ℕ) → 4 ≤ a → b ≡ a + p → b - 4 ≡ a - 4 + p
behind a b p h e = omega arith

-- Behind the 4 bytes of the header, after align_to the offset is a multiple of `n`, the padding
-- is shorter than `n`, and it is zeros, for an `n` above 0.
align_to-IsAligned :
    (n : ℕ) (w : CdrWriter)
    → 0 < n
    → 4 ≤ length w.buf
    → (Writer.payload_offset (Writer.align_to n w) % n ≡ 0)
      × (length (Writer.align_to n w).buf < length w.buf + n)
      × ((pad : ℕ) × ((Writer.align_to n w).buf ≡ w.buf ++ replicate pad 0))
unfolding Writer.align_to Writer.payload_offset
align_to-IsAligned n w pos header =
    let len = length-append w.buf (replicate (padding (length w.buf - 4) n) 0) in
    let pad = length-replicate {A = ℕ} (padding (length w.buf - 4) n) 0 in
    (
      ap (λ t. t % n) (behind _ _ _ header (omega (arith, len, pad)))
          ∙ padded_offset (length w.buf - 4) n pos,
      omega (arith, len, pad, mod-lt (n - (length w.buf - 4) % n) pos),
      (padding (length w.buf - 4) n, refl),
    )
