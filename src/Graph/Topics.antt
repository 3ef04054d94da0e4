-- ===== src/Graph/Topics.antt =====
-- The first half of GraphMonitor::snapshot_json (src/rcllite/graph.cpp): nodes, topics and edges.
use rcllite.Prelude.{
  ℕ, ◌-◌, Bool, true, false, not, ◌&&◌, ◌||◌, Option, none, some, List, [], ◌∷◌, Bytes, text, take,
  drop, length, ltb, same_text, same_text_iff, text_before, if◌then◌else◌, Result, ok, ◌>>=◌, ◌≡◌,
  ◌↔◌, arith,
}
use rcllite.Prelude.OrderedMap
use rcllite.Prelude.OrderedMap.{OrderedMap, Key, text_key}
use rcllite.Names.Search.{starts_with, is_empty, slash}
use rcllite.Names.Maps.{make_fq_node_name}
use rcllite.Graph.State.{Guid, EndpointInfo, NodeEntitiesInfo, ParticipantEntitiesInfo, Monitor}
use rcllite.Graph.Resolve.{Source, discovery, user_data, anonymous, resolve_node, is_plumbing_topic}

-- std::set<std::string>: the keys of a map.
abbrev pub TextSet : Type 0
TextSet = OrderedMap Bytes (Unit {0})

pub record NodeAttrib : Type 0 where
  pub rank : ℕ
  pub source : Source

abbrev pub Nodes : Type 0
Nodes = OrderedMap Bytes NodeAttrib

abbrev pub rank_of : Source → ℕ
rank_of discovery = 3
rank_of user_data = 2
rank_of anonymous = 1

-- nodes[name]
abbrev attrib_of : Option NodeAttrib → NodeAttrib
attrib_of none = record { rank = 0; source = anonymous }
attrib_of (some attrib) = attrib

unfoldable pub note_node : Bytes → Source → Nodes → Nodes
note_node name source nodes =
    let attrib = attrib_of (OrderedMap.find name nodes) in
    let better : NodeAttrib = record { rank = rank_of source; source = source } in
    OrderedMap.insert name (if ltb attrib.rank (rank_of source) then better else attrib) nodes

-- An entry of `live`. The map is filled in the order of `endpoints`, which is its own.
pub record Live : Type 0 where
  pub guid : Guid
  pub info : EndpointInfo
  pub node : Bytes
  pub source : Source

unfoldable pub resolve_live :
    Monitor → OrderedMap Guid EndpointInfo → Nodes → Result (List Live × Nodes)
resolve_live m [] nodes = ok ([], nodes)
resolve_live m ((guid, info) ∷ es) nodes =
    if same_text info.participant m.self_guid then resolve_live m es nodes else do
      (node, source) ← resolve_node m info.participant guid
      (live, nodes') ← resolve_live m es (note_node node source nodes)
      ok (record { guid = guid; info = info; node = node; source = source } ∷ live, nodes')

unfoldable pub note_infos : List NodeEntitiesInfo → Nodes → Result Nodes
note_infos [] nodes = ok nodes
note_infos (node_info ∷ infos) nodes = do
  name ← make_fq_node_name node_info.node_namespace node_info.node_name
  note_infos infos (note_node name discovery nodes)

unfoldable pub note_discovery :
    Guid → OrderedMap Guid ParticipantEntitiesInfo → Nodes → Result Nodes
note_discovery self [] nodes = ok nodes
note_discovery self ((guid, info) ∷ infos) nodes =
    if same_text guid self
    then note_discovery self infos nodes
    else do nodes' ← note_infos info.node_entities_info_seq nodes; note_discovery self infos nodes'

unfoldable pub note_participants : Guid → OrderedMap Guid Bytes → Nodes → Nodes
note_participants self [] nodes = nodes
note_participants self ((guid, enclave) ∷ ps) nodes =
    if same_text guid self || is_empty enclave
    then note_participants self ps nodes
    else note_participants self ps (note_node enclave user_data nodes)

pub record TopicAgg : Type 0 where
  pub type : Bytes
  pub writers : TextSet
  pub readers : TextSet

-- topics[info.topic]
abbrev pub agg_of : Option TopicAgg → TopicAgg
agg_of none = record { type = []; writers = []; readers = [] }
agg_of (some agg) = agg

abbrev pub add_endpoint : Live → TopicAgg → TopicAgg
add_endpoint l agg =
    if l.info.writer
    then record agg { type = l.info.type; writers = OrderedMap.insert l.node tt agg.writers }
    else record agg { type = l.info.type; readers = OrderedMap.insert l.node tt agg.readers }

abbrev pub Topics : Type 0
Topics = OrderedMap Bytes TopicAgg

unfoldable pub aggregate : List Live → Topics → Topics
aggregate [] topics = topics
aggregate (l ∷ live) topics = aggregate live (
    OrderedMap.insert l.info.topic (add_endpoint l (agg_of (OrderedMap.find l.info.topic topics)))
      topics)

pub data Kind : Type 0 where
  service topic : Kind

-- The tuple of an edge.
pub record Edge : Type 0 where
  pub source : Bytes
  pub target : Bytes
  pub name : Bytes
  pub kind : Kind

abbrev same_kind : Kind → Kind → Bool
same_kind service service = true
same_kind topic topic = true
same_kind _ _ = false

abbrev same_edge : Edge → Edge → Bool
same_edge e f =
    same_text e.source f.source
    && same_text e.target f.target
    && same_text e.name f.name
    && same_kind e.kind f.kind

-- The order of tuples. The last components are compared as pointers to two literals, whose order
-- the compiler chooses; here "service" comes first.
abbrev edge_before : Edge → Edge → Bool
edge_before e f =
    if not (same_text e.source f.source)
    then text_before e.source f.source
    else if not (same_text e.target f.target)
    then text_before e.target f.target
    else if not (same_text e.name f.name)
    then text_before e.name f.name
    else same_kind e.kind service && same_kind f.kind topic

same_kind_iff : (k l : Kind) → (same_kind k l ≡ true) ↔ (k ≡ l)
same_kind_iff service service = ground arith
same_kind_iff topic topic = ground arith
same_kind_iff service topic = ground arith
same_kind_iff topic service = ground arith

pub same_edge_iff : (e f : Edge) → (same_edge e f ≡ true) ↔ (e ≡ f)
same_edge_iff e f = ground (
  arith,
  same_text_iff e.source f.source,
  same_text_iff e.target f.target,
  same_text_iff e.name f.name,
  same_kind_iff e.kind f.kind,
)

instance abbrev pub edge_key : Key Edge
edge_key = record { same = same_edge; before = edge_before; same_iff = same_edge_iff }

abbrev pub EdgeSet : Type 0
EdgeSet = OrderedMap Edge (Unit {0})

-- s.compare(s.size() - 7, 7, "Request") == 0
abbrev pub is_request : Bytes → Bool
is_request s = same_text (drop (length s - 7) s) (text "Request")

-- The name of the edges of a topic, if it has any.
unfoldable pub edge_name : Bytes → Option (Bytes × Kind)
unfolding is_plumbing_topic starts_with
edge_name dds_topic =
    if is_plumbing_topic dds_topic
    then none
    else if starts_with (text "rq/") dds_topic && ltb 10 (length dds_topic) && is_request dds_topic
    then some (slash ∷ take (length dds_topic - 3 - 7) (drop 3 dds_topic), service)
    else if starts_with (text "rt/") dds_topic && ltb 3 (length dds_topic)
    then some (slash ∷ drop 3 dds_topic, topic)
    else none

-- The inner loop: one source to every target.
unfoldable pub to_targets : Bytes → Bytes × Kind → TextSet → EdgeSet → EdgeSet
to_targets source label [] edges = edges
to_targets source (name, kind) ((target, u) ∷ targets) edges =
    to_targets source (name, kind) targets
      (OrderedMap.insert (record { source = source; target = target; name = name; kind = kind }) tt
        edges)

unfoldable pub from_sources : TextSet → Bytes × Kind → TextSet → EdgeSet → EdgeSet
unfolding to_targets
from_sources [] label targets edges = edges
from_sources ((source, u) ∷ sources) label targets edges =
    from_sources sources label targets (to_targets source label targets edges)

abbrev pub topic_edges : Option (Bytes × Kind) → TopicAgg → EdgeSet → EdgeSet
topic_edges none agg edges = edges
topic_edges (some label) agg edges = from_sources agg.writers label agg.readers edges

unfoldable pub add_edges : Topics → EdgeSet → EdgeSet
add_edges [] edges = edges
add_edges ((dds_topic, agg) ∷ topics) edges =
    add_edges topics (topic_edges (edge_name dds_topic) agg edges)
