-- ===== src/Service/Header.antt =====
-- ServiceHeader of src/rcllite/service.hpp. The int64_t sequence stands by its 64-bit pattern.
use rcllite.Prelude.{ℕ, ◌^◌, ◌<◌, ok, ◌>>=◌}
use rcllite.Cdr.Writer.{CdrWriter, write_uint64}
use rcllite.Cdr.Reader.{Read, read_uint64}
use rcllite.Cdr.RoundTrip.{ReadsBack, then-ReadsBack, map-ReadsBack, uint64-ReadsBack}

pub record ServiceHeader : Type 0 where
  pub client_id : ℕ
  pub sequence : ℕ

unfoldable pub write_service_header : ServiceHeader → CdrWriter → CdrWriter
write_service_header h w = write_uint64 h.sequence (write_uint64 h.client_id w)

unfoldable pub read_service_header : Read ServiceHeader
read_service_header r = do
  (id, after) ← read_uint64 r
  (seq, end) ← read_uint64 after
  ok (record { client_id = id; sequence = seq }, end)

abbrev pub IsU64 : ℕ → Type 0
IsU64 v = v < 2 ^ 64

-- A header of two 64-bit numbers is read back as it was written.
pub header-ReadsBack :
    (h : ServiceHeader) (w : CdrWriter)
    → IsU64 h.client_id
    → IsU64 h.sequence
    → ReadsBack read_service_header h w (write_service_header h w)
unfolding read_service_header write_service_header
header-ReadsBack h w p q = then-ReadsBack _ (uint64-ReadsBack h.client_id w p) (
    map-ReadsBack (λ seq. record { client_id = h.client_id; sequence = seq })
      (uint64-ReadsBack h.sequence _ q))
