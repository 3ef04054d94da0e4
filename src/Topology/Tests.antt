-- ===== src/Topology/Tests.antt =====
-- Runs of src/rcllite/graph_executor.cpp, and its theorems at concrete inputs.
use rcllite.Prelude.{
  map, some, ℕ, ◌≡◌, ◌%◌, ◌⊎◌, refl, arith, true, false, none, List, [], ◌∷◌, text, ok, length,
}
use rcllite.Dds.Calls.{Call, writecdr, Cyclone, value}
use rcllite.Dds.Serdata.{raw_serdata_from_blob}
use rcllite.Dds.Entities.{write}
use rcllite.Topology.Payload.{payload_from_hex, hex_bytes, nibble, odd_length, invalid_digit}
use rcllite.Topology.Hex.{to_hex, any_other, payload_from_hex-to_hex, payload_from_hex-error}
use rcllite.Topology.State.{RawPublisher, RawSubscription, GraphExecutor}
use rcllite.Topology.State
use rcllite.Topology.Publish.{publish_once, start_one, start_all, start_publishing, Running}
use rcllite.Json.Escape.{json_escape_string, escape_chars, escape_char, decimal, digits}
use rcllite.Topology.Status.{status_json, node_json, items_json, publisher_json}
use rcllite.Topology.ReadBack.{read_status, node_report, read_status-status_json}
use rcllite.Node.Construct.{NodeOwner}

payload_from_hex-to_hex_example :
    payload_from_hex (to_hex (0 ∷ 1 ∷ 0xab ∷ [])) (text "p") ≡ ok (0 ∷ 1 ∷ 0xab ∷ [])
payload_from_hex-to_hex_example =
    payload_from_hex-to_hex (0 ∷ 1 ∷ 0xab ∷ []) (text "p") (omega arith)

payload_from_hex-error_example :
    ((length (text "0g") % 2 ≡ 1) × (invalid_digit (text "p") ≡ odd_length (text "p")))
    ⊎ ((length (text "0g") % 2 ≡ 0)
        × (any_other (text "0g") ≡ true)
        × (invalid_digit (text "p") ≡ invalid_digit (text "p")))
unfolding payload_from_hex hex_bytes nibble
payload_from_hex-error_example =
    payload_from_hex-error (text "0g") (text "p") (invalid_digit (text "p")) refl

-- A CycloneDDS that takes every sample.
abbrev takes_all : Cyclone
takes_all trace c = value 0

-- A publisher that writes once, and one with 1.0 Hz.
abbrev publisher : ℕ → RawPublisher
publisher rate = record {
  topic = text "/chatter";
  type = text "T";
  writer = record { wr = 7; sertype = 8 };
  payload = 0 ∷ 1 ∷ 0 ∷ 0 ∷ [];
  rate_hz = rate;
  published = 0;
}

abbrev plain_owner : NodeOwner
plain_owner = record {
  node = record {
    name = text "a";
    ns = text "/";
    fq_name = text "/a";
    entities = [];
    entity_epoch = 0;
    guard = false;
  };
  change_guard = 1;
  ppant = record { handle = 2; publisher = 3; subscriber = 4 };
  discovery = record { ros_topic = []; writer = record { wr = 5; sertype = 6 } };
}

abbrev sends : Call
sends = writecdr 7 (0 ∷ 1 ∷ 0 ∷ 0 ∷ [])

-- The node with its counters.
abbrev nodes : ℕ → ℕ → List State.NodeEntry
nodes once periodic =
    record {
      fq_name = text "/a";
      namespace_ = text "/";
      owner = plain_owner;
      params = none;
      publishers =
          record (publisher 0) { published = once }
          ∷ record (publisher 0x3ff0000000000000) { published = periodic }
          ∷ [];
      subscriptions = [];
    }
    ∷ []

abbrev started : Running
started = record { trace = sends ∷ []; nodes = nodes 1 0; running = true }

starts : start_publishing takes_all 32 (nodes 0 0) [] ≡ (started.trace, ok started.nodes)
unfolding start_publishing start_all start_one publish_once write raw_serdata_from_blob
starts = refl

read_status-status_json_example :
    read_status (status_json (nodes 3 4)) ≡ some (map node_report (nodes 3 4), [])
read_status-status_json_example = read_status-status_json (nodes 3 4)

-- The document itself.
status :
    status_json (nodes 3 4)
    ≡ text
        "{\"nodes\":[{\"name\":\"/a\",\"publishers\":[{\"topic\":\"/chatter\",\"type\":\"T\",\"published\":3},{\"topic\":\"/chatter\",\"type\":\"T\",\"published\":4}],\"subscriptions\":[]}]}"
unfolding status_json node_json items_json publisher_json json_escape_string escape_chars
    escape_char decimal digits
status = refl
