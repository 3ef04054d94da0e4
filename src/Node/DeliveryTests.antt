-- ===== src/Node/DeliveryTests.antt =====
-- Two texts on their way from a publisher to a subscription.
use rcllite.Prelude.{
  ◌≤◌, ◌≡◌, refl, sym, arith, true, false, Option, some, List, [], ◌∷◌, ◌++◌, Bytes, text, drop,
  length, take,
}
use rcllite.Message.{Message, Codes}
use rcllite.Cdr.Writer.{write_string, new_writer, payload}
use rcllite.Cdr.Endian.{le_bytes}
use rcllite.Cdr.Sequence.{read_string_elem}
use rcllite.Cdr.RoundTrip.{map-ReadsBack, string-ReadsBack}
use rcllite.Dds.Serdata.{
  Fragment, raw_from_ser, raw_to_ser, raw_serdata_from_blob, raw_from_ser_iov, copy_iov, raw_resize,
}
use rcllite.Dds.Fragments.{Covers}
use rcllite.Dds.Take.{Sample, dispatch}
use rcllite.Dds.Take
use rcllite.Dds.Drain.{TakesOldest}
use rcllite.Dds.Calls.{Cyclone, value, sent}
use rcllite.Dds.Entities.{write}
use rcllite.Node.Endpoints.{Publisher, publish}
use rcllite.Node.Delivery.{Arrives, nothing, notice, arrives, publish_all, publish_all-dispatch}

abbrev texts : Message Bytes
texts = record { serialize = write_string; deserialize = read_string_elem }

ab-Codes : Codes texts (text "ab")
unfolding read_string_elem
ab-Codes w = map-ReadsBack some (string-ReadsBack (text "ab") w (omega arith))

cd-Codes : Codes texts (text "cd")
unfolding read_string_elem
cd-Codes w = map-ReadsBack some (string-ReadsBack (text "cd") w (omega arith))

-- A CycloneDDS that answers 0 to every call.
abbrev takes_all : Cyclone
takes_all trace c = value 0

abbrev a_publisher : Publisher
a_publisher = record { ros_topic = text "/t"; writer = record { wr = 7; sertype = 8 } }

-- The payload of a text of two bytes.
abbrev sample_of : Bytes → Bytes
sample_of s = (0 ∷ 1 ∷ 0 ∷ 0 ∷ 3 ∷ 0 ∷ 0 ∷ 0 ∷ []) ++ (s ++ (0 ∷ 0 ∷ []))

-- Two pieces of it, which share four bytes, the first one twice.
abbrev first_piece : Bytes → Fragment
first_piece d = record { min = 0; maxp1 = 8; bytes = raw_to_ser 0 8 d }

abbrev pieces : Bytes → List Fragment
pieces d =
    first_piece d ∷ first_piece d ∷ record { min = 4; maxp1 = 12; bytes = raw_to_ser 4 8 d } ∷ []

pieces-Covers : (d : Bytes) → length d ≡ 12 → Covers d 0 (pieces d)
pieces-Covers d h =
    let long : 12 ≤ length d = omega (arith, h) in
    let half : 8 ≤ length d = omega (arith, h) in
    (
      omega arith,
      omega arith,
      half,
      refl,
      (omega arith, omega arith, half, refl, (omega arith, omega arith, long, refl, sym h)),
    )

abbrev arrived : Bytes → Sample
arrived d = record { valid_data = true; payload = raw_from_ser (pieces d) 12 }

abbrev queue : List Sample
queue =
    arrived (sample_of (text "ab"))
    ∷ record { valid_data = false; payload = [] }
    ∷ arrived (sample_of (text "cd"))
    ∷ []

abbrev take_oldest : List Sample → List Sample × Option (List Sample)
take_oldest q = (drop 16 q, some (take 16 q))

oldest_first : TakesOldest take_oldest (λ q. q)
oldest_first = record { taken = λ q. refl; left = λ q. refl }

in_order : Arrives (sample_of (text "ab") ∷ sample_of (text "cd") ∷ []) queue
in_order =
    arrives (sample_of (text "ab")) (arrived (sample_of (text "ab")))
      (pieces (sample_of (text "ab"))) refl refl (pieces-Covers (sample_of (text "ab")) refl)
      (notice (record { valid_data = false; payload = [] }) refl
        (arrives (sample_of (text "cd")) (arrived (sample_of (text "cd")))
          (pieces (sample_of (text "cd"))) refl refl (pieces-Covers (sample_of (text "cd")) refl)
          nothing))

publish_all-dispatch_example :
    dispatch texts (Take.take take_oldest 1 queue [] 0).payloads ≡ text "ab" ∷ text "cd" ∷ []
unfolding publish_all publish write raw_serdata_from_blob raw_from_ser_iov copy_iov raw_resize sent
    payload write_string new_writer le_bytes
publish_all-dispatch_example =
    publish_all-dispatch takes_all 32 texts a_publisher (text "ab" ∷ text "cd" ∷ []) []
      (sample_of (text "ab") ∷ sample_of (text "cd") ∷ []) take_oldest (λ q. q) queue 1
      (ab-Codes, (cd-Codes, tt)) refl refl in_order oldest_first (omega arith)
