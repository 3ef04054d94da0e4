-- ===== src/Service/Client.antt =====
-- class Client of src/rcllite/service.hpp. The promise of a call and the callback of an
-- asynchronous request are named by numbers; what happens to them is a list of events.
use rcllite.Prelude.{
  ℕ, ◌+◌, ◌%◌, ◌^◌, Bytes, List, [], ◌∷◌, ◌++◌, Bool, not, Option, none, some, Result, ok, err,
  internal_error, wait_timeout, ◌>>=◌, ◌==◌, if◌then◌else◌,
}
use rcllite.Prelude.OrderedMap
use rcllite.Prelude.OrderedMap.{OrderedMap, number_key}
use rcllite.Message.{Message}
use rcllite.Cdr.Reader.{new_reader}
use rcllite.Service.Header.{read_service_header}
use rcllite.Service.Server.{framed}

pub record Pending : Type 0 where
  pub on_response : Option ℕ
  pub sync_promise : Option ℕ

pub record Client : Type 0 where
  pub ros_service : Bytes
  pub client_id : ℕ
  pub next_sequence : ℕ
  pub pending : OrderedMap ℕ Pending

-- What completing a request does.
pub data Event (Resp : Type 0) : Type 0 where
  set_value : ℕ → Resp → Event Resp
  run_callback : ℕ → Resp → Event Resp

-- The result of send_request: the client, the payload that was handed to the writer, and the
-- sequence number or the error.
pub record Sent : Type 0 where
  pub client : Client
  pub payload : Bytes
  pub outcome : Result ℕ

-- The constructor.
unfoldable pub new_client : Bytes → ℕ → Client
new_client ros_service id = record {
  ros_service = ros_service;
  client_id = id;
  next_sequence = 0;
  pending = [];
}

-- ++next_sequence_
unfoldable pub next_seq : Client → ℕ
next_seq c = (c.next_sequence + 1) % 2 ^ 64

-- pending_.erase(seq)
unfoldable pub forget : ℕ → Client → Client
forget seq c = record c { pending = OrderedMap.erase seq c.pending }

-- The client with the completion registered, before the request is written.
unfoldable pub register : Pending → Client → Client
unfolding next_seq
register p c = record c {
  next_sequence = next_seq c;
  pending = OrderedMap.insert (next_seq c) p c.pending;
}

module _ {Req : Type 0} (request : Message Req) where
  -- The payload that carries the header and the request.
  abbrev pub request_frame : Req → Client → Bytes
  request_frame req c =
      framed request (record { client_id = c.client_id; sequence = next_seq c }) req

  -- `write` is the answer of the DDS writer to a payload.
  unfoldable pub send_request : (Bytes → Bool) → Req → Pending → Client → Sent
  send_request write req p c =
      let seq = next_seq c in
      let bytes = request_frame req c in
      if write bytes
      then record { client = register p c; payload = bytes; outcome = ok seq }
      else record {
        client = forget seq (register p c);
        payload = bytes;
        outcome = err (internal_error "failed to send request on {}" (c.ros_service ∷ []));
      }

  unfoldable pub async_send_request : (Bytes → Bool) → Req → Option ℕ → Client → Sent
  async_send_request write req on_response c =
      send_request write req (record { on_response = on_response; sync_promise = none }) c

-- The end of call(): `ready` says whether the future was completed in time. A late call forgets its
-- request.
unfoldable pub finish_call : {Resp : Type 0} → ℕ → Option Resp → Client → Client × Result Resp
unfolding forget
finish_call seq (some resp) c = (c, ok resp)
finish_call seq none c =
    (forget seq c, err (wait_timeout "timeout waiting for response from {}" (c.ros_service ∷ [])))

module _ {Resp : Type 0} where
  abbrev promised : Option ℕ → Resp → List (Event Resp)
  promised none resp = []
  promised (some i) resp = set_value i resp ∷ []

  abbrev called : Option ℕ → Resp → List (Event Resp)
  called none resp = []
  called (some f) resp = run_callback f resp ∷ []

  -- set_value and then on_response, each where it is there.
  unfoldable pub complete : Pending → Resp → List (Event Resp)
  complete p resp = promised p.sync_promise resp ++ called p.on_response resp

  -- The pending request that a response is for is taken out of the map, and completed.
  unfoldable pub settle : ℕ → Option Resp → Client → Client × List (Event Resp)
  settle seq none c = (c, [])
  settle seq (some resp) c = elim (OrderedMap.find seq c.pending) [
    | none ↦ (c, [])
    | some p ↦ (forget seq c, complete p resp)
  ]

module _ {Resp : Type 0} (response : Message Resp) where
  -- The body of the try block.
  unfoldable pub on_response : Bytes → Client → Result (Client × List (Event Resp))
  on_response payload c = do
    r ← new_reader payload
    (h, after) ← read_service_header r
    if not (h.client_id == c.client_id)
        then ok (c, [])
        else (do (resp, end) ← response.deserialize after; ok (settle h.sequence resp c))

  -- An exception is logged. (A callback that throws has been called, and its request is gone.)
  unfoldable pub handle_response : Bytes → Client → Client × List (Event Resp)
  handle_response payload c = elim (on_response payload c) [ ok done ↦ done | err e ↦ (c, []) ]

  -- The payloads that Reader::take hands over, in order.
  unfoldable pub dispatch : List Bytes → Client → Client × List (Event Resp)
  dispatch [] c = (c, [])
  dispatch (payload ∷ rest) c =
      let (c', events) = handle_response payload c in
      let (c'', later) = dispatch rest c' in (c'', events ++ later)
