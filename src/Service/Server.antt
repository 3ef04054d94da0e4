-- ===== src/Service/Server.antt =====
-- class Service of src/rcllite/service.hpp. The message types and the callback are arguments.
use rcllite.Prelude.{Bytes, List, [], ◌∷◌, Option, none, some, Result, ok, err, ◌>>=◌}
use rcllite.Message.{Message}
use rcllite.Cdr.Writer.{new_writer, payload}
use rcllite.Cdr.Reader.{new_reader}
use rcllite.Service.Header.{ServiceHeader, write_service_header, read_service_header}

-- CdrWriter w; write_service_header(w, h); T::serialize(value, w); w.payload()
unfoldable pub framed : {A : Type 0} → Message A → ServiceHeader → A → Bytes
framed m h a = payload (m.serialize a (write_service_header h new_writer))

module _ {Req Resp : Type 0} (response : Message Resp) where
  -- What stands behind the header of a request: `none` where deserialize returns false.
  unfoldable pub answer : (Req → Result Resp) → ServiceHeader → Option Req → Result (Option Bytes)
  answer callback h none = ok none
  answer callback h (some req) = do resp ← callback req; ok (some (framed response h resp))

module _ {Req Resp : Type 0} (request : Message Req) (response : Message Resp) where
  -- The body of the try block.
  unfoldable pub on_request : (Req → Result Resp) → Bytes → Result (Option Bytes)
  on_request callback payload = do
    r ← new_reader payload
    (h, after) ← read_service_header r
    (req, end) ← request.deserialize after
    answer response callback h req

  -- An exception is logged, and nothing is replied.
  unfoldable pub handle_request : (Req → Result Resp) → Bytes → Option Bytes
  handle_request callback payload = elim (on_request callback payload) [
    | ok reply ↦ reply
    | err e ↦ none
  ]

  -- The replies that are written for the payloads that Reader::take hands over, in order.
  unfoldable pub dispatch : (Req → Result Resp) → List Bytes → List Bytes
  dispatch callback [] = []
  dispatch callback (payload ∷ rest) = elim (handle_request callback payload) [
    | none ↦ dispatch callback rest
    | some reply ↦ reply ∷ dispatch callback rest
  ]
