-- ===== src/Graph/AppearsTests.antt =====
-- The announcement of one node, as the monitor hears it, and a monitor that is made.
use rcllite.Prelude.{◌≡◌, none, some, [], ◌∷◌, Bytes, text, ok, replicate, ◌>>=◌, false}
use rcllite.Prelude.OrderedMap
use rcllite.Message.{Message}
use rcllite.Cdr.Writer.{write_string}
use rcllite.Cdr.Reader.{read_string}
use rcllite.Dds.Serdata.{Fragment}
use rcllite.Dds.Config.{Environment, Context}
use rcllite.Dds.Calls.{Cyclone, value, sent}
use rcllite.Node.Construct.{NodeOwner, fresh_node}
use rcllite.Graph.State.{ParticipantEntitiesInfo, Log, Monitor}
use rcllite.Graph.Resolve.{discovery}
use rcllite.Graph.Construct.{BuiltinTopics, fresh_monitor, construct_monitor}
use rcllite.Graph.Snapshot.{Snapshot}
use rcllite.Graph.Silent.{construct_monitor-silent}
use rcllite.Dds.Alive.{live_qos}

-- A codec for what node /a says of itself: the 24 bytes of the gid, as a text.
abbrev says_a : Bytes → ParticipantEntitiesInfo
says_a gid = record {
  gid = gid;
  node_entities_info_seq =
      record {
        node_namespace = text "/";
        node_name = text "a";
        reader_gid_seq = [];
        writer_gid_seq = [];
      }
      ∷ [];
}

abbrev infos : Message ParticipantEntitiesInfo
infos = record {
  serialize = λ info. write_string info.gid;
  deserialize = λ r. read_string r >>= λ p. ok (some (says_a p.0), p.1);
}

abbrev logs : Message Log
logs = record { serialize = λ log w. w; deserialize = λ r. ok (none, r) }

-- A CycloneDDS that answers 0 to every call.
abbrev takes_all : Cyclone
takes_all trace c = value 0

abbrev env : Environment
env = record { ros_domain_id = none; ros_localhost_only = none; cyclonedds_uri = none }

abbrev ctx : Context
ctx = record { domain_id = 0; localhost_only = false; config_xml = [] }

abbrev node_a : NodeOwner
node_a = record {
  node = fresh_node (text "a") (text "/") (text "/a");
  change_guard = 0;
  ppant = record { handle = 0; publisher = 0; subscriber = 0 };
  discovery = record {
    ros_topic = text "ros_discovery_info";
    writer = record { wr = 0; sertype = 0 };
  };
}

-- Its announcement, in one piece.
abbrev announcement : Bytes
announcement = 0 ∷ 1 ∷ 0 ∷ 0 ∷ 25 ∷ replicate 31 0

abbrev piece : Fragment
piece = record { min = 0; maxp1 = 36; bytes = announcement }

abbrev monitor : Monitor
monitor = fresh_monitor (1 ∷ [])

abbrev heard : Monitor
heard = record monitor { discovery = (replicate 16 0, says_a (replicate 24 0)) ∷ [] }

abbrev seen : Snapshot
seen = record {
  nodes = (text "/a", record { rank = 3; source = discovery }) ∷ [];
  live = [];
  topics = [];
  edges = [];
}

abbrev topics : BuiltinTopics
topics = record { participant = 1; publication = 2; subscription = 3 }

construct_monitor-silent_example :
    (sent (construct_monitor takes_all topics (text "T") (text "L") env ctx []).0 ≡ [])
    × (live_qos takes_all (construct_monitor takes_all topics (text "T") (text "L") env ctx []).0
        ≡ 0)
unfolding sent live_qos
construct_monitor-silent_example =
    construct_monitor-silent takes_all topics (text "T") (text "L") env ctx []
