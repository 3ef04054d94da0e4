-- ===== src/Node/Tests.antt =====
-- Runs of src/rcllite/node.cpp and publisher.hpp, and their theorems at concrete inputs.
use rcllite.Prelude.{
  ℕ, Bool, ◌≡◌, ◌+◌, refl, arith, true, false, none, some, [], ◌∷◌, Bytes, text, Result, ok, length,
  ltb, if◌then◌else◌,
}
use mathlib.Core.Option
use rcllite.Message.{Message}
use rcllite.Graph.State.{ParticipantEntitiesInfo}
use rcllite.Cdr.Writer.{write_string, new_writer, payload}
use rcllite.Dds.Serdata.{raw_serdata_from_blob}
use rcllite.Dds.Config.{Environment, Context}
use rcllite.Dds.Calls.{matched_readers, Trace, Cyclone, value, sent}
use rcllite.Dds.Entities.{reader_count}
use rcllite.Node.Endpoints.{Publisher}
use rcllite.Node.Construct.{NodeOwner}
use rcllite.Node.Wait.{
  wait_until, wait_for, wait_for_subscribers, publish_within, has_subscribers,
  get_subscription_count,
}
use rcllite.Node.WaitLaws.{
  polls, wait_for_subscribers_ends, wait_for_subscribers_finds, publish_within-sent,
}

-- A CycloneDDS on which a reader is matched behind the second call.
abbrev matched_later : Cyclone
matched_later trace (matched_readers wr) = value (if ltb (length trace) 2 then 0 else 1)
matched_later trace c = value 0

abbrev nobody : Cyclone
nobody trace c = value 0

abbrev a_publisher : Publisher
a_publisher = record { ros_topic = text "/t"; writer = record { wr = 7; sertype = 8 } }

-- A clock that shows the number of the calls.
abbrev ticking : Trace → ℕ
ticking trace = length trace

wait_for_subscribers_ends_example :
    (r : Result Bool) × ((wait_for_subscribers nobody ticking (4 + 1) 4 a_publisher []).1 ≡ some r)
wait_for_subscribers_ends_example =
    wait_for_subscribers_ends nobody ticking a_publisher 4 [] (λ trace. omega arith)

nobody_came : (wait_for_subscribers nobody ticking 5 4 a_publisher []).1 ≡ some (ok false)
unfolding wait_for_subscribers wait_for wait_until has_subscribers get_subscription_count
    reader_count
nobody_came = refl

wait_for_subscribers_finds_example :
    (wait_for_subscribers matched_later ticking 3 9 a_publisher []).1 ≡ some (ok true)
unfolding polls has_subscribers get_subscription_count reader_count
wait_for_subscribers_finds_example =
    wait_for_subscribers_finds matched_later ticking a_publisher 2 9 [] (λ trace. omega arith)
      (omega arith) refl

-- Texts as messages.
abbrev texts : Message Bytes
texts = record { serialize = write_string; deserialize = λ r. ok (none, r) }

publish_within-sent_example :
    ((publish_within nobody ticking 5 32 4 texts (text "x") a_publisher []).1 ≡ some (ok false)
      → sent (publish_within nobody ticking 5 32 4 texts (text "x") a_publisher []).0 ≡ sent [])
    × ((publish_within nobody ticking 5 32 4 texts (text "x") a_publisher []).1 ≡ some (ok true)
        → some (sent (publish_within nobody ticking 5 32 4 texts (text "x") a_publisher []).0)
          ≡ Option.map
              (λ d. d ∷ sent [])
              (raw_serdata_from_blob 32 (payload (texts.serialize (text "x") new_writer))))
publish_within-sent_example =
    publish_within-sent nobody ticking 5 32 4 texts (text "x") a_publisher []

-- The name of the first node, as a message.
abbrev infos : Message ParticipantEntitiesInfo
infos = record {
  serialize =
      λ info w. elim info.node_entities_info_seq [ [] ↦ w | n ∷ ns ↦ write_string n.node_name w ];
  deserialize = λ r. ok (none, r);
}

abbrev plain_env : Environment
plain_env = record { ros_domain_id = none; ros_localhost_only = none; cyclonedds_uri = none }

abbrev plain_context : Context
plain_context = record { domain_id = 0; localhost_only = false; config_xml = [] }

abbrev node_a : NodeOwner
node_a = record {
  node = record {
    name = text "a";
    ns = text "/";
    fq_name = text "/a";
    entities = [];
    entity_epoch = 0;
    guard = false;
  };
  change_guard = 0;
  ppant = record { handle = 0; publisher = 0; subscriber = 0 };
  discovery = record {
    ros_topic = text "ros_discovery_info";
    writer = record { wr = 0; sertype = 0 };
  };
}
