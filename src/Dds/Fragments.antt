-- ===== src/Dds/Fragments.antt =====
-- A sample on its way: raw_to_ser of src/rcllite/dds/raw_serdata.cpp cuts it and raw_from_ser puts
-- the pieces together on the other side.
use rcllite.Prelude.{
  ℕ, zero, suc, ◌+◌, ◌-◌, ◌%◌, ◌<◌, ◌≤◌, ◌≡◌, refl, sym, ap, ◌∙◌, subst, arith, List, [], ◌∷◌, ◌++◌,
  Bytes, length, length-append, length-take, length-drop, take, drop, append_assoc, append-nil, ltb,
  if◌then◌else◌, replicate, Bool-cases, inl, inr,
}
use rcllite.Dds.Serdata.{Fragment, raw_to_ser, raw_from_ser, to_boundary}
use rcllite.Dds.Reassembly.{Chain, complete, stale, adds, raw_from_ser-Chain}

-- Pieces that raw_to_ser cut out of a payload, when the bytes below `off` are there: none begins
-- behind what is there, and after the last one all is there. They may overlap and come twice.
abbrev pub Covers : Bytes → ℕ → List Fragment → Type 0
Covers p off [] = off ≡ length p
Covers p off (f ∷ fs) =
    (f.min ≤ off)
    × (f.min ≤ f.maxp1)
    × (f.maxp1 ≤ length p)
    × (f.bytes ≡ raw_to_ser f.min (f.maxp1 - f.min) p)
    × Covers p (if ltb off f.maxp1 then f.maxp1 else off) fs

take-drop : (n : ℕ) (xs : Bytes) → take n xs ++ drop n xs ≡ xs
take-drop zero xs = refl
take-drop (suc n) [] = refl
take-drop (suc n) (x ∷ xs) = ap (λ l. x ∷ l) (take-drop n xs)

take_past : (xs ys : Bytes) (n k : ℕ) → k ≡ length xs + n → take k (xs ++ ys) ≡ xs ++ take n ys
take_past [] ys n k h = ap (λ j. take j ys) (same_number h)
  where
    same_number : k ≡ 0 + n → k ≡ n
    same_number e = omega arith
take_past (x ∷ xs) ys n zero h = absurd (omega arith)
take_past (x ∷ xs) ys n (suc k) h = ap (λ l. x ∷ l) (take_past xs ys n k (omega arith))

drop_within : (m : ℕ) (xs ys : Bytes) → m ≤ length xs → drop m (xs ++ ys) ≡ drop m xs ++ ys
drop_within zero xs ys h = refl
drop_within (suc m) [] ys h = absurd (omega arith)
drop_within (suc m) (x ∷ xs) ys h = drop_within m xs ys (omega arith)

-- A piece: what was there of it, and what is new.
piece :
    (front rest : Bytes) (m n k : ℕ)
    → m ≤ length front
    → k ≡ length front - m + n
    → raw_to_ser m k (front ++ rest) ≡ drop m front ++ take n rest
unfolding raw_to_ser
piece front rest m n k h e =
    rw (drop_within m front rest h)
      (take_past (drop m front) rest n k (omega (arith, length-drop m front)))

-- A fragment with `n` new bytes.
adds_piece :
    (front rest : Bytes) (f : Fragment) (fs : List Fragment) (n : ℕ)
    → f.min ≤ length front
    → f.maxp1 ≡ length front + n
    → 0 < n
    → n ≤ length rest
    → f.bytes ≡ raw_to_ser f.min (f.maxp1 - f.min) (front ++ rest)
    → Chain (front ++ take n rest) (drop n rest) fs
    → Chain front rest (f ∷ fs)
adds_piece front rest f fs n low end some_new within bytes c =
    subst (λ r. Chain front r (f ∷ fs)) (take-drop n rest)
      (adds front (take n rest) (drop n rest) (drop f.min front) [] f fs
        (omega (arith, length-drop f.min front)) (omega (arith, length-take n rest))
        (omega (arith, length-take n rest))
        (bytes
          ∙ piece front rest f.min n (f.maxp1 - f.min) low (omega arith)
          ∙ ap (λ l. drop f.min front ++ l) (sym (append-nil (take n rest))))
        c)

rejoined : (front rest : Bytes) (n : ℕ) → (front ++ take n rest) ++ drop n rest ≡ front ++ rest
rejoined front rest n =
    append_assoc front (take n rest) (drop n rest) ∙ ap (λ l. front ++ l) (take-drop n rest)

moved :
    (front rest : Bytes) (n k : ℕ) (fs : List Fragment)
    → k ≡ length front + n
    → n ≤ length rest
    → Covers (front ++ rest) k fs
    → Covers ((front ++ take n rest) ++ drop n rest) (length (front ++ take n rest)) fs
moved front rest n k fs e h c =
    let at : k ≡ length (front ++ take n rest) =
      omega (arith, length-append front (take n rest), length-take n rest) in
    subst (λ q. Covers q (length (front ++ take n rest)) fs) (sym (rejoined front rest n))
      (subst (λ j. Covers (front ++ rest) j fs) at c)

Covers-Chain :
    (fs : List Fragment) (front rest : Bytes)
    → Covers (front ++ rest) (length front) fs
    → Chain front rest fs
Covers-Chain [] front [] c = complete front
Covers-Chain [] front (x ∷ rest) c = absurd (omega (arith, length-append front (x ∷ rest)))
Covers-Chain (f ∷ fs) front rest (low, cut, within, bytes, c) =
    elim (Bool-cases (ltb (length front) f.maxp1)) [
      | inr old ↦
          stale front rest f fs (ground (arith, old)) (Covers-Chain fs front rest (rw old at c))
      | inl far ↦
          let n : ℕ = f.maxp1 - length front in
          let grows : length front < f.maxp1 = ground (arith, far) in
          let fits : n ≤ length rest = omega (arith, length-append front rest) in
          adds_piece front rest f fs n low (omega arith) (omega arith) fits bytes (
            Covers-Chain fs (front ++ take n rest) (drop n rest)
              (moved front rest n f.maxp1 fs (omega arith) fits (rw far at c)))
    ]

-- Whatever pieces of a payload cover it, in whatever sizes, overlaps and repetitions, they are
-- put together to it, where its length is a multiple of four.
pub raw_from_ser-Covers :
    (p : Bytes) (fs : List Fragment)
    → length p % 4 ≡ 0
    → Covers p 0 fs
    → raw_from_ser fs (length p) ≡ p
raw_from_ser-Covers p fs whole c =
    raw_from_ser-Chain p fs (Covers-Chain fs [] p c)
    ∙ ap (λ k. p ++ replicate k 0) (no_padding (length p) whole)
    ∙ append-nil p
  where
    no_padding : (n : ℕ) → n % 4 ≡ 0 → to_boundary n ≡ 0
    no_padding n h = omega arith
