-- ===== src/Service/Tests.antt =====
-- The theorems on src/rcllite/service.hpp at concrete inputs: a service that answers a text by the
-- text with one more letter.
use rcllite.Prelude.{
  ◌≡◌, refl, [], ◌∷◌, ◌++◌, arith, Bytes, Bool, true, false, text, Result, ok, ◌+◌, ◌^◌, ◌<◌, some,
  none,
}
use rcllite.Prelude.OrderedMap
use rcllite.Prelude.OrderedMap.{number_key}
use rcllite.Message.{Message, Codes}
use rcllite.Cdr.Writer.{write_string}
use rcllite.Cdr.Sequence.{read_string_elem}
use rcllite.Cdr.RoundTrip.{map-ReadsBack, string-ReadsBack}
use rcllite.Service.Header.{ServiceHeader}
use rcllite.Service.Server.{framed, handle_request}
use rcllite.Service.Frames.{Opens, framed-Opens}
use rcllite.Service.Client.{
  Client, Pending, new_client, next_seq, forget, register, send_request, complete, handle_response,
}
use rcllite.Service.Exchange.{exchange, at_most_once}
use rcllite.Service.Pending.{born, sends, Life-next_seq_fresh}
use rcllite.Service.Race.{
  Race, awaited, sent_race, thrown, done, Reach, start, later, take_out, expire, give_up,
  set_promise, used_after_free-thrown,
}

abbrev text_message : Message Bytes
text_message = record { serialize = write_string; deserialize = read_string_elem }

abc-Codes : Codes text_message (text "abc")
unfolding read_string_elem
abc-Codes w = map-ReadsBack some (string-ReadsBack (text "abc") w (omega arith))

abcd-Codes : Codes text_message (text "abcd")
unfolding read_string_elem
abcd-Codes w = map-ReadsBack some (string-ReadsBack (text "abcd") w (omega arith))

abbrev callback : Bytes → Result Bytes
callback s = ok (s ++ text "d")

abbrev writes : Bytes → Bool
writes bytes = true

abbrev caller : Client
caller = record { ros_service = text "/spell"; client_id = 17; next_sequence = 4; pending = [] }

abbrev promise : Pending
promise = record { on_response = none; sync_promise = some 9 }

exchange_example :
    (reply : Bytes) × (handle_request text_message text_message callback
        ((send_request text_message writes (text "abc") promise caller).payload ++ (0 ∷ 0 ∷ []))
      ≡ some reply)
    × (handle_response text_message
          (reply ++ (0 ∷ []))
          (send_request text_message writes (text "abc") promise caller).client
        ≡ (
          forget
              (next_seq caller)
              (send_request text_message writes (text "abc") promise caller).client,
          complete promise (text "abcd"),
        ))
exchange_example =
    exchange text_message text_message writes callback (text "abc") (text "abcd") promise caller
      (0 ∷ 0 ∷ []) (0 ∷ []) (omega arith) abc-Codes abcd-Codes refl refl

abbrev reply_header : ServiceHeader
reply_header = record { client_id = 17; sequence = 5 }

reply-Opens :
    Opens text_message reply_header
      (text "abc")
      (framed text_message reply_header (text "abc") ++ [])
reply-Opens =
    framed-Opens text_message reply_header (text "abc") [] (omega arith) (omega arith) abc-Codes

abbrev waiting : Client
waiting = register promise caller

same_client : reply_header.client_id ≡ waiting.client_id
unfolding register
same_client = refl

at_most_once_example :
    handle_response text_message
      (framed text_message reply_header (text "abc") ++ [])
      (handle_response text_message (framed text_message reply_header (text "abc") ++ []) waiting).0
    ≡ (
      (handle_response text_message
          (framed text_message reply_header (text "abc") ++ [])
          waiting).0,
      [],
    )
at_most_once_example =
    at_most_once text_message (framed text_message reply_header (text "abc") ++ []) reply-Opens
      waiting same_client

abbrev young : Client
young =
    (send_request text_message writes (text "abc") promise (new_client (text "/spell") 17)).client

young_counter : young.next_sequence + 1 < 2 ^ 64
unfolding send_request register new_client next_seq
young_counter = omega arith

Life-next_seq_fresh_example : OrderedMap.find (next_seq young) young.pending ≡ none
Life-next_seq_fresh_example =
    Life-next_seq_fresh text_message text_message (text "/spell") 17
      (sends writes (text "abc") promise (new_client (text "/spell") 17) born
        (unfold new_client in omega arith))
      young_counter

-- The response comes, the call times out and throws, and then the value is set.
abbrev waiting_client : Client
waiting_client = record { ros_service = text "/s"; client_id = 1; next_sequence = 0; pending = [] }

abbrev after_free : Race
after_free = record {
  client = record waiting_client { next_sequence = 1 };
  caller = thrown;
  dispatcher = done;
  promise_alive = false;
  is_set = true;
  used_after_free = true;
}

to_after_free : Reach 1 (sent_race 0 waiting_client) after_free
unfolding sent_race register next_seq forget OrderedMap.find OrderedMap.insert OrderedMap.erase
to_after_free =
    later
      (later (later (later start (take_out (awaited 0) refl refl)) (expire refl refl))
        (give_up refl))
      (set_promise (awaited 0) 0 refl refl)

used_after_free-thrown_example : after_free.caller ≡ thrown
unfolding next_seq
used_after_free-thrown_example =
    used_after_free-thrown 0 waiting_client after_free to_after_free refl
