-- ===== src/Graph/Resolve.antt =====
-- guid_hex, gid_matches, is_plumbing_topic and resolve_node of src/rcllite/graph.cpp.
use rcllite.Prelude.{
  ◌/◌, ◌%◌, Bool, true, false, ◌&&◌, ◌||◌, Option, none, some, List, [], ◌∷◌, ◌++◌, Bytes, text,
  take, length, leb, same_text, if◌then◌else◌, Result, ok, ◌>>=◌,
}
use rcllite.Prelude.OrderedMap
use rcllite.Prelude.OrderedMap.{OrderedMap, text_key}
use rcllite.Json.Escape.{hex_digit}
use rcllite.Names.Search.{starts_with, is_empty}
use rcllite.Names.Maps.{make_fq_node_name}
use rcllite.Graph.State.{Guid, NodeEntitiesInfo, ParticipantEntitiesInfo, Monitor}

unfoldable pub guid_hex : Guid → Bytes
unfolding hex_digit
guid_hex [] = []
guid_hex (byte ∷ g) = hex_digit (byte / 16) ∷ hex_digit (byte % 16) ∷ guid_hex g

unfoldable pub gid_matches : Bytes → Guid → Bool
gid_matches gid g = leb 16 (length gid) && same_text (take 16 gid) g

unfoldable pub is_plumbing_topic : Bytes → Bool
unfolding starts_with
is_plumbing_topic dds_topic =
    same_text dds_topic (text "ros_discovery_info")
    || same_text dds_topic (text "rt/rosout")
    || same_text dds_topic (text "rt/parameter_events")
    || starts_with (text "DCPS") dds_topic
    || starts_with (text "d*") dds_topic

-- The texts that a resolved name comes with.
pub data Source : Type 0 where
  discovery user_data anonymous : Source

abbrev pub source_text : Source → Bytes
source_text discovery = text "discovery"
source_text user_data = text "user_data"
source_text anonymous = text "anonymous"

unfoldable pub owns : Guid → List Bytes → Bool
unfolding gid_matches
owns endpoint [] = false
owns endpoint (gid ∷ gids) =
    let rest = owns endpoint gids in if gid_matches gid endpoint then true else rest

abbrev node_owns : Guid → NodeEntitiesInfo → Bool
node_owns endpoint node_info =
    owns endpoint node_info.writer_gid_seq || owns endpoint node_info.reader_gid_seq

-- The first node of a participant that lists the endpoint.
unfoldable pub find_owner : Guid → List NodeEntitiesInfo → Option NodeEntitiesInfo
unfolding owns
find_owner endpoint [] = none
find_owner endpoint (node_info ∷ infos) =
    let rest = find_owner endpoint infos in
    if node_owns endpoint node_info then some node_info else rest

abbrev nodes_of : Option ParticipantEntitiesInfo → List NodeEntitiesInfo
nodes_of none = []
nodes_of (some info) = info.node_entities_info_seq

-- What is left when the discovery protocol does not name an owner.
unfoldable pub from_enclave : Guid → Option Bytes → Bytes × Source
unfolding guid_hex
from_enclave participant none = (text "participant:" ++ guid_hex participant, anonymous)
from_enclave participant (some enclave) =
    if is_empty enclave
    then (text "participant:" ++ guid_hex participant, anonymous)
    else (enclave, user_data)

unfoldable pub resolve_node : Monitor → Guid → Guid → Result (Bytes × Source)
unfolding find_owner from_enclave
resolve_node m participant endpoint =
    elim (find_owner endpoint (nodes_of (OrderedMap.find participant m.discovery))) [
      | none ↦ ok (from_enclave participant (OrderedMap.find participant m.participants))
      | some info ↦ do
        name ← make_fq_node_name info.node_namespace info.node_name
        ok (name, discovery)
    ]
