-- ===== src/Service/Pending.antt =====
-- The pending requests of a client (src/rcllite/service.hpp).
use rcllite.Prelude.{
  ℕ, suc, ◌+◌, ◌^◌, ◌≤◌, ◌<◌, ◌≡◌, refl, Bytes, List, [], Bool, not, Option, none, some, Result, ok,
  err, arith, ◌==◌, Bool-cases, inl, inr, Option-cases, Ensures, Ensures-bind, Ensures-if,
  Ensures-ok,
}
use rcllite.Prelude.OrderedMap
use rcllite.Prelude.OrderedMap.{number_key, OrderedMap, find-insert, find-erase}
use rcllite.Message.{Message}
use rcllite.Cdr.Reader.{new_reader}
use rcllite.Service.Header.{IsU64, read_service_header}
use rcllite.Service.Client.{
  Client, Pending, Event, new_client, next_seq, forget, register, request_frame, send_request,
  settle, on_response, handle_response,
}

-- Every pending request has a sequence number that was allocated, and the counter is a 64-bit
-- number.
pub record IsSound (c : Client) : Type 0 where
  pub allocated :
      (seq : ℕ) (p : Pending) → OrderedMap.find seq c.pending ≡ some p → seq ≤ c.next_sequence
  pub in_range : IsU64 c.next_sequence

next_seq-suc : (c : Client) → c.next_sequence + 1 < 2 ^ 64 → next_seq c ≡ suc c.next_sequence
unfolding next_seq
next_seq-suc c h = omega arith

-- The number for the next request is that of no pending one, until the 64-bit counter wraps.
pub next_seq_fresh :
    (c : Client)
    → IsSound c
    → c.next_sequence + 1 < 2 ^ 64
    → OrderedMap.find (next_seq c) c.pending ≡ none
next_seq_fresh c s h = elim (Option-cases (OrderedMap.find (next_seq c) c.pending)) [
  | inl e ↦ e
  | inr (p, e) ↦ absurd (omega (arith, s.allocated _ p e, next_seq-suc c h))
]

forget-IsSound : (seq : ℕ) (c : Client) → IsSound c → IsSound (forget seq c)
unfolding forget
forget-IsSound seq c s = record {
  allocated = λ k p e. ground (arith, find-erase seq k c.pending, s.allocated k p);
  in_range = s.in_range;
}

register-IsSound :
    (p : Pending) (c : Client) → IsSound c → c.next_sequence + 1 < 2 ^ 64 → IsSound (register p c)
unfolding register
register-IsSound p c s h = record {
  allocated = λ k q e.
      ground (arith, find-insert (next_seq c) k p c.pending, s.allocated k q, next_seq-suc c h);
  in_range = ground (arith, next_seq-suc c h);
}

-- Sending keeps the client sound, also where the write fails.
pub send_request-IsSound :
    {Req : Type 0} (request : Message Req) (write : Bytes → Bool) (req : Req) (p : Pending)
    (c : Client)
    → IsSound c
    → c.next_sequence + 1 < 2 ^ 64
    → IsSound (send_request request write req p c).client
unfolding send_request
send_request-IsSound request write req p c s h =
    elim (Bool-cases (write (request_frame request req c))) [
      | inl sent ↦ rw sent (register-IsSound p c s h)
      | inr failed ↦
          rw failed (forget-IsSound (next_seq c) (register p c) (register-IsSound p c s h))
    ]

-- A completed or ignored response leaves the client sound.
pub settle-IsSound :
    {Resp : Type 0} (seq : ℕ) (resp : Option Resp) (c : Client)
    → IsSound c
    → IsSound (settle seq resp c).0
unfolding settle
settle-IsSound seq none c s = s
settle-IsSound seq (some resp) c s = elim (Option-cases (OrderedMap.find seq c.pending)) [
  | inl e ↦ rw (e, settle) s
  | inr (p, e) ↦ rw (e, settle) (forget-IsSound seq c s)
]

on_response-IsSound :
    {Resp : Type 0} (response : Message Resp) (payload : Bytes) (c : Client)
    → IsSound c
    → Ensures (λ done. IsSound done.0) (on_response response payload c)
unfolding on_response
on_response-IsSound response payload c s = Ensures-bind (new_reader payload) λ r.
    Ensures-bind (read_service_header r) λ h.
      Ensures-if (not (h.0.client_id == c.client_id)) (Ensures-ok (c, []) s) (
        Ensures-bind (response.deserialize h.1)
          λ d. Ensures-ok _ (settle-IsSound h.0.sequence d.0 c s))

-- Whatever bytes arrive, handling them keeps the client sound.
pub handle_response-IsSound :
    {Resp : Type 0} (response : Message Resp) (payload : Bytes) (c : Client)
    → IsSound c
    → IsSound (handle_response response payload c).0
unfolding handle_response
handle_response-IsSound {Resp} response payload c s =
    go (on_response response payload c) (on_response-IsSound response payload c s)
  where
    go :
        (m : Result (Client × List (Event Resp)))
        → Ensures (λ done. IsSound done.0) m
        → IsSound
            (elim m as (λ x. Client × List (Event Resp)) [ ok done ↦ done | err e ↦ (c, []) ]).0
    go (ok done) h = h.holds done refl
    go (err e) h = s

module _ {Req Resp : Type 0} (request : Message Req) (response : Message Resp) where
  -- The life of a client: requests are sent, payloads arrive, and calls time out, in any order.
  -- The counter is not at the end of its 64 bits.
  pub data Life (start : Client) : Client → Type 0 where
    born : Life start start
    sends :
        (write : Bytes → Bool) (req : Req) (p : Pending) (c : Client)
        → Life start c
        → c.next_sequence + 1 < 2 ^ 64
        → Life start (send_request request write req p c).client
    receives :
        (payload : Bytes) (c : Client)
        → Life start c
        → Life start (handle_response response payload c).0
    gives_up : (seq : ℕ) (c : Client) → Life start c → Life start (forget seq c)

  Life-IsSound : {start c : Client} → IsSound start → Life start c → IsSound c
  Life-IsSound s born = s
  Life-IsSound s (sends write req p c l h) =
      send_request-IsSound request write req p c (Life-IsSound s l) h
  Life-IsSound s (receives payload c l) =
      handle_response-IsSound response payload c (Life-IsSound s l)
  Life-IsSound s (gives_up seq c l) = forget-IsSound seq c (Life-IsSound s l)

  new_client-IsSound : (service : Bytes) (id : ℕ) → IsSound (new_client service id)
  unfolding new_client
  new_client-IsSound service id = record {
    allocated = λ seq p e. absurd (unfold OrderedMap.find in ground (arith, e));
    in_range = omega arith;
  }

  -- However a new client has lived, the number of its next request is that of no pending one, so
  -- that no registration overwrites another, while the counter is not at the end of its 64 bits.
  pub Life-next_seq_fresh :
      (service : Bytes) (id : ℕ) {c : Client}
      → Life (new_client service id) c
      → c.next_sequence + 1 < 2 ^ 64
      → OrderedMap.find (next_seq c) c.pending ≡ none
  Life-next_seq_fresh service id {c} l h =
      next_seq_fresh c (Life-IsSound (new_client-IsSound service id) l) h
