-- ===== src/Graph/State.antt =====
-- The state of GraphMonitor::Impl (src/rcllite/graph.cpp). A dds_guid_t is its 16 bytes, and memcmp
-- orders them as texts. Of the generated messages only the members that the source uses are here.
use rcllite.Prelude.{ℕ, Bool, List, Bytes}
use rcllite.Prelude.OrderedMap.{OrderedMap}

abbrev pub Guid : Type 0
Guid = Bytes

pub record EndpointInfo : Type 0 where
  pub participant : Guid
  pub topic : Bytes
  pub type : Bytes
  pub writer : Bool

-- rmw_dds_common/msg/NodeEntitiesInfo; a Gid is its bytes.
pub record NodeEntitiesInfo : Type 0 where
  pub node_namespace : Bytes
  pub node_name : Bytes
  pub reader_gid_seq : List Bytes
  pub writer_gid_seq : List Bytes

-- rmw_dds_common/msg/ParticipantEntitiesInfo; a Gid is its 24 bytes.
pub record ParticipantEntitiesInfo : Type 0 where
  pub gid : Bytes
  pub node_entities_info_seq : List NodeEntitiesInfo

-- rcl_interfaces/msg/Log; `sec` is an int32 by its bit pattern.
pub record Log : Type 0 where
  pub sec : ℕ
  pub nanosec : ℕ
  pub level : ℕ
  pub name : Bytes
  pub msg : Bytes
  pub file : Bytes
  pub function : Bytes
  pub line : ℕ

pub record Monitor : Type 0 where
  pub self_guid : Guid
  pub participants : OrderedMap Guid Bytes
  pub endpoints : OrderedMap Guid EndpointInfo
  pub discovery : OrderedMap Guid ParticipantEntitiesInfo
  pub logs : List Log

abbrev pub max_logs : ℕ
max_logs = 512
