-- ===== src/Dds/Transport.antt =====
-- What CycloneDDS may expect of the tables of src/rcllite/dds/raw_serdata.cpp.
use rcllite.Prelude.{
  ℕ, zero, suc, ◌-◌, ◌%◌, ◌^◌, ◌<◌, ◌≤◌, ◌≡◌, ◌↔◌, refl, ap, arith, true, some, List, [], ◌∷◌,
  Bytes, length, length-append, take, same_text_iff,
}
use native.Mathlib.Nat.{mod-eq_of_lt}
use rcllite.Dds.Serdata.{Fragment, raw_size, raw_to_ser}
use rcllite.Dds.Fragments.{Covers, raw_from_ser-Covers}
use rcllite.Dds.RawOps.{
  Kind, RawSerdata, SerdataOps, raw_serdata_ops, serdata_from_ser, snprintf, raw_print, SertypeOps,
  raw_sertype_ops, sertype_raw_equal, sertype_raw_hash, RawSertype,
}

-- A sample survives the way through its bytes, and nothing is printed behind the buffer.
pub record IsTransport (ops : SerdataOps) : Type 0 where
  pub sizes : (d : RawSerdata) → length d.payload < 2 ^ 32 → ops.size d ≡ length d.payload
  pub whole : (d : RawSerdata) → ops.to_ser d 0 (length d.payload) ≡ d.payload
  pub pieces :
      (type : ℕ) (kind : Kind) (d : RawSerdata) (fs : List Fragment)
      → length d.payload % 4 ≡ 0
      → Covers d.payload 0 fs
      → ops.from_ser type kind fs (length d.payload)
        ≡ some (record { type = some type; kind = kind; payload = d.payload })
  pub printed :
      (d : RawSerdata) (size : ℕ)
      → (length (ops.print d size).0 ≤ size) × ((ops.print d size).1 ≤ size)

-- Equality of types is an equivalence, and equal types have one hash, which has 32 bits.
pub record IsKey (ops : SertypeOps) : Type 0 where
  pub by_name : (a b : RawSertype) → (ops.equal a b ≡ true) ↔ (a.type_name ≡ b.type_name)
  pub hashes : (a b : RawSertype) → ops.equal a b ≡ true → ops.hash a ≡ ops.hash b
  pub small : (a : RawSertype) → ops.hash a < 2 ^ 32

take_whole : (xs : Bytes) → take (length xs) xs ≡ xs
take_whole [] = refl
take_whole (x ∷ xs) = ap (λ l. x ∷ l) (take_whole xs)

length-take_le : (n : ℕ) (xs : Bytes) → length (take n xs) ≤ n
length-take_le zero xs = omega arith
length-take_le (suc n) [] = omega arith
length-take_le (suc n) (x ∷ xs) = omega (arith, length-take_le n xs)

snprintf-fits : (size : ℕ) (s : Bytes) → length (snprintf size s).0 ≤ size
snprintf-fits size s =
    ground (arith, length-append (take (size - 1) s) (0 ∷ []), length-take_le (size - 1) s)

raw_print-fits :
    (d : RawSerdata) (size : ℕ)
    → (length (raw_print d size).0 ≤ size) × ((raw_print d size).1 ≤ size)
unfolding raw_print
raw_print-fits d size = (snprintf-fits size _, ground arith)

-- The table of sample functions is a transport: it gives the size of a sample of less than 2 ^
-- 32 bytes, its bytes, the sample back from any pieces that cover it where its length is a
-- multiple of four, and a printed form that stays within its buffer.
raw_serdata_ops-IsTransport : IsTransport raw_serdata_ops
unfolding raw_size raw_to_ser serdata_from_ser
raw_serdata_ops-IsTransport = record {
  sizes = λ d h. mod-eq_of_lt h;
  whole = λ d. take_whole d.payload;
  pieces = λ type kind d fs h c.
      ap (λ p. some (record { type = some type; kind = kind; payload = p }))
        (raw_from_ser-Covers d.payload fs h c);
  printed = raw_print-fits;
}

-- The types' table tells types apart by their names, and hashes equal ones alike, to 32 bits.
raw_sertype_ops-IsKey : (std_hash : Bytes → ℕ) → IsKey (raw_sertype_ops std_hash)
unfolding sertype_raw_equal sertype_raw_hash
raw_sertype_ops-IsKey std_hash = record {
  by_name = λ a b. same_text_iff a.type_name b.type_name;
  hashes = λ a b h. ap (λ s. std_hash s % 2 ^ 32) ((same_text_iff a.type_name b.type_name).0 h);
  small = λ a. omega arith;
}
