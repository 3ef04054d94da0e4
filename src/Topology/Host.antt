-- ===== src/Topology/Host.antt =====
-- What the constructor of GraphExecutor::Impl in src/rcllite/graph_executor.cpp is given, and the
-- entries of nodes that it fills.
use rcllite.Prelude.{ℕ, Bool, Option, [], ◌∷◌, ◌++◌, Bytes, Result}
use rcllite.Message.{Message}
use rcllite.Graph.State.{ParticipantEntitiesInfo}
use rcllite.Dds.Config.{Environment, Context}
use rcllite.Dds.Calls.{Trace, Io, Cyclone, return, io_then}
use rcllite.Dds.Entities.{Writer}
use rcllite.Node.{Node}
use rcllite.Node.Construct.{NodeOwner}
use rcllite.Parameter.Core.{World}
use rcllite.Parameter.Services.{MessageNames, ParameterImpl}
use rcllite.Topology.JsonLib.{JsonLib}
use rcllite.Topology.State.{NodeEntry}

-- What the constructor of the executor is linked to and runs on: vila's JSON and its registry of node
-- classes, CycloneDDS with the width of its length type, the process, the generated messages, the
-- world of the parameters, and the answers of dds_waitset_attach. The constructor of a class may have
-- made the parameters of its node already.
pub record Host (Json : Type 0) : Type 0 where
  pub json : JsonLib Json
  pub create_by_name : Bytes → Bytes → Bytes → Io (Option (NodeOwner × Option ParameterImpl))
  pub cyclone : Cyclone
  pub bits : ℕ
  pub env : Environment
  pub context : Context
  pub info_type : Bytes
  pub info_message : Message ParticipantEntitiesInfo
  pub message_names : MessageNames
  pub world : World
  pub attaches : ℕ → ℕ → Bool

-- The state of a process beside a value, from where it runs on a part of the state.
abbrev pub on_entry :
    {A : Type 0} → (Node → Trace → (Trace × Node) × Result A) → NodeEntry → Io (A × NodeEntry)
on_entry m entry trace =
    let (s, r) = m entry.owner.node trace in
    io_then (s.0, r) (λ a. return (a, record entry { owner = record entry.owner { node = s.1 } }))

-- The entry of a node, before its parameters and endpoints.
abbrev pub new_entry : NodeOwner × Option ParameterImpl → Bytes → NodeEntry
new_entry (owner, made) namespace_ = record {
  fq_name = owner.node.fq_name;
  namespace_ = namespace_;
  owner = owner;
  params = made;
  publishers = [];
  subscriptions = [];
}

-- entry.publishers.push_back(...)
unfoldable pub with_publisher : NodeEntry → Bytes → Bytes → Bytes → ℕ → Writer → NodeEntry
with_publisher entry topic type payload rate_hz w = record entry {
  publishers =
      entry.publishers
      ++ (record {
        topic = topic;
        type = type;
        writer = w;
        payload = payload;
        rate_hz = rate_hz;
        published = 0;
      }
          ∷ []);
}
