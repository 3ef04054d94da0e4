-- ===== src/Dds/Serdata.antt =====
-- The samples of src/rcllite/dds/raw_serdata.cpp. A RawSerdata is its payload.
use rcllite.Prelude.{
  ℕ, ◌+◌, ◌-◌, ◌%◌, ◌^◌, Option, none, some, List, [], ◌∷◌, ◌++◌, Bytes, take, drop, length,
  replicate, ltb, ◌==◌, if◌then◌else◌,
}

-- (0u - static_cast<unsigned int>(requested)) % 4u
abbrev pub to_boundary : ℕ → ℕ
to_boundary requested = (2 ^ 32 - requested % 2 ^ 32) % 2 ^ 32 % 4

unfoldable pub raw_resize : ℕ → Bytes
raw_resize requested = replicate (requested + to_boundary requested) 0

unfoldable pub raw_size : Bytes → ℕ
raw_size payload = length payload % 2 ^ 32

-- memcpy to an offset of a buffer that is long enough.
abbrev pub copy_to : ℕ → Bytes → Bytes → Bytes
copy_to offset bytes buf = take offset buf ++ (bytes ++ drop (offset + length bytes) buf)

-- A fragment of the chain: the bytes from `min` on, of which those below `maxp1` belong to it.
pub record Fragment : Type 0 where
  pub min : ℕ
  pub maxp1 : ℕ
  pub bytes : Bytes

-- The loop over the chain. `off - min` does not go below 0 where no fragment begins behind the
-- bytes so far.
unfoldable pub reassemble : List Fragment → ℕ → ℕ → Bytes → Bytes
reassemble [] off cursor buf = buf
reassemble (f ∷ fs) off cursor buf =
    let n = f.maxp1 - off in
    let next =
      reassemble fs f.maxp1 (cursor + n)
        (copy_to cursor (take n (drop (off - f.min) f.bytes)) buf) in
    let same = reassemble fs off cursor buf in if ltb off f.maxp1 then next else same

unfoldable pub raw_from_ser : List Fragment → ℕ → Bytes
unfolding reassemble raw_resize
raw_from_ser fragchain size = reassemble fragchain 0 0 (raw_resize size)

-- The loop over the vectors.
unfoldable pub copy_iov : List Bytes → ℕ → Bytes → Bytes
copy_iov [] cursor buf = buf
copy_iov (v ∷ iov) cursor buf = copy_iov iov (cursor + length v) (copy_to cursor v buf)

unfoldable pub raw_from_ser_iov : List Bytes → ℕ → Bytes
unfolding copy_iov raw_resize
raw_from_ser_iov iov size = copy_iov iov 0 (raw_resize size)

unfoldable pub raw_to_ser : ℕ → ℕ → Bytes → Bytes
raw_to_ser off sz payload = take sz (drop off payload)

-- `bits` is the width of ddsrt_iov_len_t on the platform.
unfoldable pub raw_serdata_from_blob : ℕ → Bytes → Option Bytes
unfolding raw_from_ser_iov
raw_serdata_from_blob bits blob =
    if length blob % 2 ^ bits == length blob
    then some (raw_from_ser_iov (blob ∷ []) (length blob))
    else none
