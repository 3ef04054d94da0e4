-- ===== src/Dds/Reassembly.antt =====
-- Reassembly of a sample from its fragments (src/rcllite/dds/raw_serdata.cpp).
use rcllite.Prelude.{
  ℕ, zero, suc, ◌+◌, ◌-◌, ◌≤◌, ◌<◌, ◌≡◌, refl, sym, ap, ◌∙◌, arith, List, [], ◌∷◌, ◌++◌, Bytes,
  length, length-append, take, drop, replicate, take-append, drop-append, append_assoc, append-nil,
  ltb-true, ltb-false,
}
use rcllite.Dds.Serdata.{Fragment, reassemble, raw_from_ser, raw_resize, copy_to, to_boundary}
use rcllite.Dds.Blob.{drop-replicate}

-- Fragments that follow `front` and bring `rest`: each adds bytes behind those so far, or none. It
-- may begin with bytes that were there already, and hold more than it adds.
pub data Chain : Bytes → Bytes → List Fragment → Type 0 where
  complete : (front : Bytes) → Chain front [] []
  stale :
      (front rest : Bytes) (f : Fragment) (fs : List Fragment)
      → f.maxp1 ≤ length front
      → Chain front rest fs
      → Chain front rest (f ∷ fs)
  adds :
      (front new rest old extra : Bytes) (f : Fragment) (fs : List Fragment)
      → f.min + length old ≡ length front
      → f.maxp1 ≡ length front + length new
      → 0 < length new
      → f.bytes ≡ old ++ (new ++ extra)
      → Chain (front ++ new) rest fs
      → Chain front (new ++ rest) (f ∷ fs)

drop_past : (xs ys : Bytes) (n k : ℕ) → k ≡ length xs + n → drop k (xs ++ ys) ≡ drop n ys
drop_past [] ys n k h = ap (λ j. drop j ys) (same_number h)
  where
    same_number : k ≡ 0 + n → k ≡ n
    same_number e = omega arith
drop_past (x ∷ xs) ys n zero h = absurd (omega arith)
drop_past (x ∷ xs) ys n (suc k) h = drop_past xs ys n k (omega arith)

copied :
    (front new : Bytes) (m : ℕ)
    → copy_to (length front) new (front ++ replicate (length new + m) 0)
      ≡ (front ++ new) ++ replicate m 0
copied front new m =
    rw
      (
        take-append front (replicate (length new + m) 0),
        drop_past front (replicate (length new + m) 0) (length new) (length front + length new)
            refl,
        drop-replicate m (length new) (length new + m) 0 refl,
      )
      (sym (append_assoc front new (replicate m 0)))

picked :
    (old new extra : Bytes) (off min : ℕ)
    → min + length old ≡ off
    → take (length new) (drop (off - min) (old ++ (new ++ extra))) ≡ new
picked old new extra off min h =
    rw (behind off min (length old) h, drop-append old (new ++ extra)) (take-append new extra)
  where
    behind : (off min k : ℕ) → min + k ≡ off → off - min ≡ k
    behind off min k h = omega arith

more : (a b : ℕ) → a + b - a ≡ b
more a b = omega arith

none_more : (n : ℕ) → 0 + n ≡ n
none_more n = omega arith

reassemble-Chain :
    (fs : List Fragment) (front rest : Bytes) (pad : ℕ)
    → Chain front rest fs
    → reassemble fs (length front) (length front) (front ++ replicate (length rest + pad) 0)
      ≡ (front ++ rest) ++ replicate pad 0
unfolding reassemble
reassemble-Chain _ front _ pad (complete _) = rw (append-nil front, none_more pad) refl
reassemble-Chain _ front rest pad (stale _ _ f fs h c) =
    rw (ltb-false (length front) f.maxp1 h) (reassemble-Chain fs front rest pad c)
reassemble-Chain _ front _ pad (adds _ new rest old extra f fs at end some_new bytes c) =
    rw (end, bytes)
      (rw
        (
          ltb-true (length front) (length front + length new) (omega arith),
          more (length front) (length new),
          picked old new extra (length front) f.min at,
          length-append new rest,
        )
        (next (reassemble-Chain fs (front ++ new) rest pad c)))
  where
    next :
        reassemble fs
            (length (front ++ new))
            (length (front ++ new))
            ((front ++ new) ++ replicate (length rest + pad) 0)
          ≡ ((front ++ new) ++ rest) ++ replicate pad 0
        → reassemble fs
            (length front + length new)
            (length front + length new)
            (copy_to (length front) new (front ++ replicate (length new + length rest + pad) 0))
          ≡ (front ++ (new ++ rest)) ++ replicate pad 0
    next e =
        rw (shuffle (length new) (length rest) pad, copied front new (length rest + pad))
          (ap (λ n. reassemble fs n n ((front ++ new) ++ replicate (length rest + pad) 0))
              (sym (length-append front new))
            ∙ e
            ∙ ap (λ l. l ++ replicate pad 0) (append_assoc front new rest))
      where
        shuffle : (a b c : ℕ) → a + b + c ≡ a + (b + c)
        shuffle a b c = omega arith

-- A sample is put together from a chain of fragments that bring it in order, which may overlap
-- and come with stale ones, with zeros behind it up to the next multiple of four.
pub raw_from_ser-Chain :
    (sample : Bytes) (fs : List Fragment)
    → Chain [] sample fs
    → raw_from_ser fs (length sample) ≡ sample ++ replicate (to_boundary (length sample)) 0
unfolding raw_from_ser raw_resize
raw_from_ser-Chain sample fs c = reassemble-Chain fs [] sample (to_boundary (length sample)) c
