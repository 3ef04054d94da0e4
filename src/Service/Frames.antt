-- ===== src/Service/Frames.antt =====
-- What a framed message (src/rcllite/service.hpp) gives the reader on the other side.
use rcllite.Prelude.{◌≡◌, sym, subst, Bytes, ◌++◌, append_assoc, some, ok}
use rcllite.Message.{Message, Codes}
use rcllite.Cdr.Writer.{new_writer, payload}
use rcllite.Cdr.Reader.{CdrReader, new_reader}
use rcllite.Cdr.RoundTrip.{at, new_reader_starts}
use rcllite.Service.Header.{
  ServiceHeader, IsU64, write_service_header, read_service_header, header-ReadsBack,
}
use rcllite.Service.Server.{framed}

-- The three reads of a message that arrives, with whatever padding behind it.
pub record Opens {A : Type 0} (m : Message A) (h : ServiceHeader) (a : A) (bytes : Bytes)
    : Type 0 where
  pub start : CdrReader
  pub after : CdrReader
  pub end : CdrReader
  pub starts : new_reader bytes ≡ ok start
  pub header : read_service_header start ≡ ok (h, after)
  pub body : m.deserialize after ≡ ok (some a, end)

pub framed-Opens :
    {A : Type 0} (m : Message A) (h : ServiceHeader) (a : A) (rest : Bytes)
    → IsU64 h.client_id
    → IsU64 h.sequence
    → Codes m a
    → Opens m h a (framed m h a ++ rest)
unfolding framed payload
framed-Opens m h a rest p q codes =
    let w = write_service_header h new_writer in
    let head = header-ReadsBack h new_writer p q in
    let body = codes w in
    record {
      start = at (new_writer).buf (head.added ++ (body.added ++ rest));
      after = at w.buf (body.added ++ rest);
      end = at (w.buf ++ body.added) rest;
      starts = rw (body.appends, head.appends, append_assoc, append_assoc) (new_reader_starts _);
      header =
          subst
            (λ b.
              read_service_header (at (new_writer).buf (head.added ++ (body.added ++ rest)))
              ≡ ok (h, at b (body.added ++ rest)))
            (sym head.appends) (head.reads (body.added ++ rest));
      body = body.reads rest;
    }
