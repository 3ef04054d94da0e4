-- ===== src/Graph/Snapshot.antt =====
-- The second half of GraphMonitor::snapshot_json (src/rcllite/graph.cpp): the JSON text.
use rcllite.Prelude.{
  ℕ, ◌+◌, ◌-◌, ◌*◌, ◌%◌, ◌^◌, Bool, true, false, not, ◌||◌, List, [], ◌∷◌, ◌++◌, Bytes, text, take,
  drop, length, ltb, if◌then◌else◌, Result, ok, ◌>>=◌,
}
use rcllite.Names.Search.{starts_with, slash}
use rcllite.Json.Escape.{json_escape_string, decimal, signed_decimal}
use rcllite.Graph.State.{Monitor, Log}
use rcllite.Graph.Resolve.{source_text, is_plumbing_topic, guid_hex}
use rcllite.Graph.Topics.{
  TextSet, Nodes, Live, Topics, EdgeSet, Kind, service, topic, is_request, resolve_live,
  note_discovery, note_participants, aggregate, add_edges,
}

-- first ? "{" : ",{"
abbrev pub opening : Bool → Bytes
opening true = text "{"
opening false = text ",{"

unfoldable pub dump_from : Bool → TextSet → Bytes
dump_from inner [] = []
dump_from inner ((name, u) ∷ names) =
    (if inner then [] else text ",") ++ (json_escape_string name ++ dump_from false names)

unfoldable pub dump_names : TextSet → Bytes
unfolding dump_from
dump_names names = text "[" ++ (dump_from true names ++ text "]")

unfoldable pub dump_nodes : Bool → Nodes → Bytes
dump_nodes first [] = []
dump_nodes first ((name, attrib) ∷ nodes) =
    opening first
    ++ text "\"name\":"
    ++ json_escape_string name
    ++ text ",\"source\":"
    ++ json_escape_string (source_text attrib.source)
    ++ text "}"
    ++ dump_nodes false nodes

unfoldable pub dump_topics : Bool → Topics → Bytes
dump_topics first [] = []
dump_topics first ((dds_topic, agg) ∷ topics) =
    let go_on = dump_topics first topics in
    let rest = dump_topics false topics in
    if not (starts_with (text "rt/") dds_topic)
      || ltb (length dds_topic) 4
      || is_plumbing_topic dds_topic
    then go_on
    else opening first
      ++ text "\"topic\":"
      ++ json_escape_string (slash ∷ drop 3 dds_topic)
      ++ text ",\"type\":"
      ++ json_escape_string agg.type
      ++ text ",\"publishers\":"
      ++ dump_names agg.writers
      ++ text ",\"subscriptions\":"
      ++ dump_names agg.readers
      ++ text "}"
      ++ rest

unfoldable pub dump_services : Bool → Topics → Bytes
dump_services first [] = []
dump_services first ((dds_topic, agg) ∷ topics) =
    let go_on = dump_services first topics in
    let rest = dump_services false topics in
    if not (starts_with (text "rq/") dds_topic)
      || ltb (length dds_topic) 11
      || not (is_request dds_topic)
    then go_on
    else opening first
      ++ text "\"service\":"
      ++ json_escape_string (slash ∷ take (length dds_topic - 3 - 7) (drop 3 dds_topic))
      ++ text ",\"type\":"
      ++ json_escape_string agg.type
      ++ text ",\"servers\":"
      ++ dump_names agg.readers
      ++ text ",\"clients\":"
      ++ dump_names agg.writers
      ++ text "}"
      ++ rest

abbrev kind_text : Kind → Bytes
kind_text service = text "service"
kind_text topic = text "topic"

unfoldable pub dump_edges : Bool → EdgeSet → Bytes
dump_edges first [] = []
dump_edges first ((e, u) ∷ edges) =
    opening first
    ++ text "\"source\":"
    ++ json_escape_string e.source
    ++ text ",\"target\":"
    ++ json_escape_string e.target
    ++ text ",\"topic\":"
    ++ json_escape_string e.name
    ++ text ",\"kind\":"
    ++ json_escape_string (kind_text e.kind)
    ++ text "}"
    ++ dump_edges false edges

unfoldable pub dump_endpoints : Bool → List Live → Bytes
dump_endpoints first [] = []
dump_endpoints first (l ∷ live) =
    opening first
    ++ text "\"gid\":\""
    ++ guid_hex l.guid
    ++ text "\""
    ++ text ",\"participant\":\""
    ++ guid_hex l.info.participant
    ++ text "\""
    ++ text ",\"node\":"
    ++ json_escape_string l.node
    ++ text ",\"topic\":"
    ++ json_escape_string l.info.topic
    ++ text ",\"type\":"
    ++ json_escape_string l.info.type
    ++ text ",\"kind\":"
    ++ json_escape_string (if l.info.writer then text "publisher" else text "subscription")
    ++ text "}"
    ++ dump_endpoints false live

-- An int32 by its pattern, as an int64 by its pattern.
abbrev sign_extended : ℕ → ℕ
sign_extended v = if ltb v (2 ^ 31) then v else v + (2 ^ 64 - 2 ^ 32)

unfoldable pub dump_logs : Bool → List Log → Bytes
dump_logs first [] = []
dump_logs first (log ∷ logs) =
    opening first
    ++ text "\"stamp\":"
    ++ signed_decimal ((sign_extended log.sec * 10 ^ 9 + log.nanosec) % 2 ^ 64)
    ++ text ",\"level\":"
    ++ decimal log.level
    ++ text ",\"name\":"
    ++ json_escape_string log.name
    ++ text ",\"msg\":"
    ++ json_escape_string log.msg
    ++ text ",\"file\":"
    ++ json_escape_string log.file
    ++ text ",\"function\":"
    ++ json_escape_string log.function
    ++ text ",\"line\":"
    ++ decimal log.line
    ++ text "}"
    ++ dump_logs false logs

-- What the text is made from.
pub record Snapshot : Type 0 where
  pub nodes : Nodes
  pub live : List Live
  pub topics : Topics
  pub edges : EdgeSet

unfoldable pub snapshot : Monitor → Result Snapshot
snapshot m = do
  (live, seen) ← resolve_live m m.endpoints []
  announced ← note_discovery m.self_guid m.discovery seen
  let topics = aggregate live [] in
      ok (record {
        nodes = note_participants m.self_guid m.participants announced;
        live = live;
        topics = topics;
        edges = add_edges topics [];
      })

unfoldable pub snapshot_json : Monitor → Result Bytes
snapshot_json m = do
  s ← snapshot m
  ok (
      text "{\"nodes\":["
      ++ dump_nodes true s.nodes
      ++ text "],\"topics\":["
      ++ dump_topics true s.topics
      ++ text "],\"services\":["
      ++ dump_services true s.topics
      ++ text "],\"edges\":["
      ++ dump_edges true s.edges
      ++ text "],\"endpoints\":["
      ++ dump_endpoints true s.live
      ++ text "],\"logs\":["
      ++ dump_logs true m.logs
      ++ text "]}")
