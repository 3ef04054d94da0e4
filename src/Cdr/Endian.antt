-- ===== src/Cdr/Endian.antt =====
-- The object representation that `memcpy` of a number gives on the little-endian machines that the
-- program supports (src/rcllite/cdr.hpp: write_aligned(&v, size, ...) and read_aligned<T>). A signed
-- or floating number stands for itself by its bit pattern.
use rcllite.Prelude.{
  ℕ, zero, suc, ◌+◌, ◌*◌, ◌/◌, ◌%◌, ◌^◌, ◌<◌, ◌≡◌, refl, [], ◌∷◌, arith, Bytes, length,
}

-- The `size` low bytes of `v`, lowest first.
unfoldable pub le_bytes : ℕ → ℕ → Bytes
le_bytes zero v = []
le_bytes (suc size) v = (v % 256) ∷ le_bytes size (v / 256)

-- The number that the bytes stand for.
unfoldable pub le_value : Bytes → ℕ
le_value [] = 0
le_value (b ∷ bs) = b + 256 * le_value bs

pub length-le_bytes : (size v : ℕ) → length (le_bytes size v) ≡ size
unfolding le_bytes
length-le_bytes zero v = refl
length-le_bytes (suc size) v = omega (arith, length-le_bytes size (v / 256))

pub le_value-le_bytes : (size v : ℕ) → v < 256 ^ size → le_value (le_bytes size v) ≡ v
unfolding le_bytes le_value
le_value-le_bytes zero v h = omega arith
le_value-le_bytes (suc size) v h = omega (arith, le_value-le_bytes size (v / 256) (fits size v h))
  where
    fits : (s u : ℕ) → u < 256 ^ suc s → u / 256 < 256 ^ s
    fits s u p = omega arith
