-- ===== src/Node/Construct.antt =====
-- The constructor of class Node (src/rcllite/node.cpp) with the calls of CycloneDDS that it makes,
-- its announcement to the ROS graph, and its destructor.
use rcllite.Prelude.{
  ℕ, true, false, ◌||◌, [], ◌∷◌, ◌++◌, replicate, Bytes, text, invalid_arguments, internal_error,
  if◌then◌else◌,
}
use rcllite.Names.Search.{is_empty, slash, find_byte, found}
use rcllite.Names.Maps.{make_fq_node_name}
use rcllite.Message.{Message}
use rcllite.Cdr.Endian.{le_bytes}
use rcllite.Dds.Qos.{default_qos, keep_last, set_transient_local}
use rcllite.Dds.Config.{Environment, Context}
use rcllite.Dds.Calls.{get_guid, Io, Cyclone, ◌>>=◌, return, throw, lift, call, on_throw}
use rcllite.Dds.Entities.{
  Participant, make_participant, delete_participant, make_guard, delete_guard, delete_writer,
}
use rcllite.Graph.State.{ParticipantEntitiesInfo}
use rcllite.Node.{Node}
use rcllite.Node.Endpoints.{Publisher, make_publisher, publish}

-- A node with the DDS entities that it owns.
pub record NodeOwner : Type 0 where
  pub node : Node
  pub change_guard : ℕ
  pub ppant : Participant
  pub discovery : Publisher

-- The members below `discovery_` go in the reverse order of their declarations.
abbrev pub delete_owned : ℕ → Participant → Io (Unit {0})
delete_owned change_guard ppant = do u ← delete_guard change_guard; delete_participant ppant

-- A new node, before anything is added to it.
abbrev pub fresh_node : Bytes → Bytes → Bytes → Node
fresh_node name ns fq = record {
  name = name;
  ns = ns;
  fq_name = fq;
  entities = [];
  entity_epoch = 0;
  guard = false;
}

-- What the node says of itself; the sequences of endpoints stay empty. A guid is the number that its
-- 16 bytes spell; they stand in front of a Gid, which has 24 in the messages of humble.
unfoldable pub discovery_info : ℕ → Bytes → Bytes → ParticipantEntitiesInfo
discovery_info guid name ns = record {
  gid = le_bytes 16 guid ++ replicate 8 0;
  node_entities_info_seq =
      record { node_namespace = ns; node_name = name; reader_gid_seq = []; writer_gid_seq = [] }
      ∷ [];
}

module _ (cyclone : Cyclone) (bits : ℕ) (type : Bytes)
    (message : Message ParticipantEntitiesInfo) where
  -- `type` is the DDS name of the message. The publisher goes where the publish throws.
  unfoldable pub announce_to_ros_graph : Participant → Bytes → Bytes → Io Publisher
  unfolding discovery_info
  announce_to_ros_graph ppant name ns = do
    guid ←
        call cyclone (get_guid ppant.handle)
          (internal_error "dds_get_guid failed for participant" [])
    announcer ←
        make_publisher cyclone ppant type (text "ros_discovery_info")
          (keep_last 1 (set_transient_local default_qos)) true
    u ←
        on_throw (delete_writer announcer.writer)
          (publish cyclone bits message (discovery_info guid name ns) announcer)
    return announcer

  -- The body of the constructor, behind the initializers of the members.
  unfoldable pub construct_body : Environment → Context → Bytes → Bytes → Bytes → ℕ → Io NodeOwner
  unfolding announce_to_ros_graph
  construct_body env ctx name ns fq change_guard =
      if is_empty name || found (find_byte slash name)
      then on_throw (delete_guard change_guard)
          (throw (invalid_arguments "invalid node name: {}" (name ∷ [])))
      else do
        ppant ←
            on_throw (delete_guard change_guard) (make_participant cyclone env ctx ctx.domain_id fq)
        announcer ← on_throw (delete_owned change_guard ppant) (announce_to_ros_graph ppant name ns)
        return (record {
          node = fresh_node name ns fq;
          change_guard = change_guard;
          ppant = ppant;
          discovery = announcer;
        })

  -- `ctx` is Context::instance().
  unfoldable pub construct_node : Environment → Context → Bytes → Bytes → Io NodeOwner
  unfolding construct_body
  construct_node env ctx name namespace_ =
      let ns = if is_empty namespace_ then slash ∷ [] else namespace_ in
      do
        fq ← lift (make_fq_node_name ns name)
        change_guard ← make_guard cyclone
        construct_body env ctx name ns fq change_guard

-- The destructor, of a node that has no parameters and no entities left.
unfoldable pub delete_node : NodeOwner → Io (Unit {0})
delete_node n = do u ← delete_writer n.discovery.writer; delete_owned n.change_guard n.ppant
