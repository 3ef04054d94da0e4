-- ===== src/Dds/Blob.antt =====
-- What the writer hands to CycloneDDS (src/rcllite/dds/raw_serdata.cpp).
use rcllite.Prelude.{
  ℕ, zero, suc, ◌+◌, ◌%◌, ◌^◌, ◌<◌, ◌≡◌, refl, ap, ◌∙◌, arith, some, ◌++◌, Bytes, length,
  length-append, length-replicate, drop, replicate, ==_iff,
}
use native.Mathlib.Nat.{mod-eq_of_lt}
use rcllite.Dds.Serdata.{to_boundary, raw_resize, copy_iov, raw_from_ser_iov, raw_serdata_from_blob}

pub to_boundary_small : (n : ℕ) → to_boundary n < 4
to_boundary_small n = omega arith

pub to_boundary_fits : (n : ℕ) → (n + to_boundary n) % 4 ≡ 0
to_boundary_fits n = omega arith

pub drop-replicate : (m n k z : ℕ) → k ≡ n + m → drop n (replicate k z) ≡ replicate m z
drop-replicate m zero k z h = ap (λ j. replicate j z) (same_number h)
  where
    same_number : k ≡ 0 + m → k ≡ m
    same_number e = omega arith
drop-replicate m (suc n) zero z h = absurd (omega arith)
drop-replicate m (suc n) (suc k) z h = drop-replicate m n k z (omega arith)

-- A blob that the length type can count becomes a payload with fewer than four zeros behind it,
-- up to a multiple of four.
pub blob_payload :
    (bits : ℕ) (blob : Bytes)
    → length blob < 2 ^ bits
    → (pad : ℕ) × (raw_serdata_from_blob bits blob ≡ some (blob ++ replicate pad 0))
      × (pad < 4)
      × (length (blob ++ replicate pad 0) % 4 ≡ 0)
unfolding raw_serdata_from_blob raw_from_ser_iov copy_iov raw_resize
blob_payload bits blob h = (
  to_boundary (length blob),
  rw
      (
        mod-eq_of_lt h,
        (==_iff (length blob) (length blob)).1 refl,
        drop-replicate (to_boundary (length blob)) (0 + length blob)
            (length blob + to_boundary (length blob)) 0 (omega arith),
      )
      refl,
  to_boundary_small (length blob),
  ap (λ n. n % 4)
        (length-append blob _
          ∙ ap (λ k. length blob + k) (length-replicate {A = ℕ} (to_boundary (length blob)) 0))
      ∙ to_boundary_fits (length blob),
)
