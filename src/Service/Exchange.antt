-- ===== src/Service/Exchange.antt =====
-- A request and its reply between a client and a server (src/rcllite/service.hpp). The bytes that
-- the transport adds behind a payload, to fill it up to four, are arbitrary here.
use rcllite.Prelude.{
  ℕ, ◌≡◌, ◌≢◌, refl, sym, ◌∙◌, Bytes, [], ◌++◌, Bool, true, not, none, some, Result, ok, err, Error,
  arith, ◌==◌, if◌then◌else◌, inl, inr, Option-cases,
}
use rcllite.Prelude.OrderedMap
use rcllite.Prelude.OrderedMap.{number_key, OrderedMap, find-insert, find-erase, same_refl}
use rcllite.Message.{Message, Codes}
use rcllite.Service.Header.{ServiceHeader, IsU64}
use rcllite.Service.Server.{framed, answer, on_request, handle_request}
use rcllite.Service.Frames.{Opens, framed-Opens}
use rcllite.Service.Client.{
  Client, Pending, next_seq, forget, register, request_frame, send_request, complete, settle,
  on_response, handle_response,
}

module _ {Req Resp : Type 0} (request : Message Req) (response : Message Resp)
    (callback : Req → Result Resp) (bytes : Bytes) {h : ServiceHeader} {req : Req}
    (o : Opens request h req bytes) where
  reaches_callback :
      on_request request response callback bytes ≡ answer response callback h (some req)
  unfolding on_request
  reaches_callback = rw (o.starts, o.header, o.body)

  -- The server echoes the header of a request in front of the callback's response.
  pub answered :
      (resp : Resp)
      → callback req ≡ ok resp
      → handle_request request response callback bytes ≡ some (framed response h resp)
  unfolding handle_request answer
  answered resp e = ground (arith, reaches_callback, e)

  silent_error :
      (e : Error) → callback req ≡ err e → handle_request request response callback bytes ≡ none
  unfolding handle_request answer
  silent_error e h = ground (arith, reaches_callback, h)

module _ {Resp : Type 0} (response : Message Resp) (bytes : Bytes) {h : ServiceHeader} {resp : Resp}
    (o : Opens response h resp bytes) (c : Client) where
  reaches_test : on_response response bytes c ≡ (
      if not (h.client_id == c.client_id) then ok (c, []) else ok (settle h.sequence (some resp) c))
  unfolding on_response
  reaches_test = rw (o.starts, o.header, o.body)

  arrives :
      h.client_id ≡ c.client_id → handle_response response bytes c ≡ settle h.sequence (some resp) c
  unfolding handle_response
  arrives e = ground (arith, reaches_test, e)

  -- A well-formed response to another client changes nothing and completes nothing.
  passes_by : h.client_id ≢ c.client_id → handle_response response bytes c ≡ (c, [])
  unfolding handle_response
  passes_by e = ground (arith, reaches_test, e)

settle_pending :
    {Resp : Type 0} (seq : ℕ) (resp : Resp) (p : Pending) (c : Client)
    → OrderedMap.find seq c.pending ≡ some p
    → settle seq (some resp) c ≡ (forget seq c, complete p resp)
unfolding settle
settle_pending seq resp p c e = rw (e, settle)

settle_absent :
    {Resp : Type 0} (seq : ℕ) (resp : Resp) (c : Client)
    → OrderedMap.find seq c.pending ≡ none
    → settle seq (some resp) c ≡ (c, [])
unfolding settle
settle_absent seq resp c e = rw (e, settle)

find-forget : (seq : ℕ) (c : Client) → OrderedMap.find seq (forget seq c).pending ≡ none
unfolding forget
find-forget seq c = rw (find-erase seq seq c.pending, same_refl seq)

find-register :
    (p : Pending) (c : Client) → OrderedMap.find (next_seq c) (register p c).pending ≡ some p
unfolding register
find-register p c = rw (find-insert (next_seq c) (next_seq c) p c.pending, same_refl (next_seq c))

settle_twice :
    {Resp : Type 0} (seq : ℕ) (resp : Resp) (c : Client)
    → settle seq (some resp) (settle seq (some resp) c).0 ≡ ((settle seq (some resp) c).0, [])
settle_twice seq resp c = elim (Option-cases (OrderedMap.find seq c.pending)) [
  | inl e ↦ rw (settle_absent seq resp c e) (settle_absent seq resp c e)
  | inr (p, e) ↦
      rw (settle_pending seq resp p c e) (settle_absent seq resp (forget seq c) (find-forget seq c))
]

settle-client_id :
    {Resp : Type 0} (seq : ℕ) (resp : Resp) (c : Client)
    → (settle seq (some resp) c).0.client_id ≡ c.client_id
unfolding settle forget
settle-client_id seq resp c = ground arith

-- A response to this client that arrives twice completes its request once: the second time
-- nothing happens.
pub at_most_once :
    {Resp : Type 0} (response : Message Resp) (bytes : Bytes) {h : ServiceHeader} {resp : Resp}
    → Opens response h resp bytes
    → (c : Client) → h.client_id ≡ c.client_id
    → handle_response response bytes (handle_response response bytes c).0
      ≡ ((handle_response response bytes c).0, [])
at_most_once response bytes {h} {resp} o c e = rw (arrives response bytes o c e) (
    arrives response bytes o _ (e ∙ sym (settle-client_id h.sequence resp c))
    ∙ settle_twice h.sequence resp c)

-- Where the client's id is a 64-bit number, the request and the response are read back as they
-- are written, the write succeeds and the callback returns a response, and whatever padding the
-- transport adds to request and reply: the server replies, and on the reply the client runs the
-- completion that was registered, with the callback's response, and no other, and takes it out
-- of its map.
pub exchange :
    {Req Resp : Type 0} (request : Message Req) (response : Message Resp) (write : Bytes → Bool)
    (callback : Req → Result Resp) (req : Req) (resp : Resp) (p : Pending) (c : Client)
    (pad pad' : Bytes)
    → IsU64 c.client_id
    → Codes request req
    → Codes response resp
    → write (request_frame request req c) ≡ true
    → callback req ≡ ok resp
    → (reply : Bytes) × (handle_request request response callback
          ((send_request request write req p c).payload ++ pad)
        ≡ some reply)
      × (handle_response response (reply ++ pad') (send_request request write req p c).client
          ≡ (forget (next_seq c) (send_request request write req p c).client, complete p resp))
unfolding send_request
exchange request response write callback req resp p c pad pad' id codes codes' sent e =
    let h : ServiceHeader = record { client_id = c.client_id; sequence = next_seq c } in
    rw sent (
      framed response h resp,
      answered request response callback _ (framed-Opens request h req pad id in_range codes) resp
          e,
      arrives response _ (framed-Opens response h resp pad' id in_range codes') (register p c)
            same_id
          ∙ settle_pending (next_seq c) resp p (register p c) (find-register p c),
    )
  where
    in_range : IsU64 (next_seq c)
    in_range = unfold next_seq in omega arith

    same_id : c.client_id ≡ (register p c).client_id
    same_id = unfold register in refl
