-- ===== src/Graph/Tests.antt =====
-- Runs of src/rcllite/graph.cpp on a small system, and its theorems there.
use rcllite.Prelude.{
  ℕ, ◌+◌, ◌≡◌, ◌≢◌, ◌↔◌, ◌≤◌, refl, true, false, none, some, [], ◌∷◌, ◌++◌, text, replicate, length,
  Result, ok, err, arith, same_text, text_before,
}
use rcllite.Prelude.OrderedMap
use rcllite.Prelude.OrderedMap.{OrderedMap, text_key}
use rcllite.Message.{Message}
use rcllite.Graph.State.{Guid, EndpointInfo, Monitor}
use rcllite.Graph.Poll.{
  ParticipantSample, EndpointSample, parse_enclave, poll_participant, poll_participants,
  poll_builtin, poll_endpoint, Slot, participant_slot, publication_slot, subscription_slot, run,
  poll_slot,
}
use rcllite.Graph.Resolve.{guid_hex, is_plumbing_topic, resolve_node}
use rcllite.Graph.Topics.{
  Edge, edge_key, topic, edge_name, resolve_live, note_discovery, aggregate, add_edges,
  from_sources,
}
use rcllite.Graph.Snapshot.{Snapshot, snapshot}
use rcllite.Graph.Flows.{Exposes, Flow}
use rcllite.Graph.Edges.{edges_iff}
use rcllite.Graph.Bounds.{run-logs}
use rcllite.Graph.Departed.{IsGone, poll_participant-IsGone}

enclave : parse_enclave (text "enclave=/ns/a;x") ≡ text "/ns/a"
unfolding parse_enclave
enclave = refl

abbrev guid : ℕ → Guid
guid n = replicate 15 0 ++ (n ∷ [])

abbrev empty_monitor : Monitor
empty_monitor = record {
  self_guid = guid 0;
  participants = [];
  endpoints = [];
  discovery = [];
  logs = [];
}

-- A message type of which nothing can be read, for slots that carry no payloads.
abbrev no_message : {A : Type 0} → Message A
no_message = record { serialize = λ a w. w; deserialize = λ r. ok (none, r) }

abbrev NoSlot : Type 0
NoSlot = Slot no_message no_message

abbrev talker : ParticipantSample
talker = record { key = guid 1; alive = true; user_data = some (text "enclave=/a;") }

abbrev chatter : ℕ → EndpointSample
chatter n = record {
  key = guid (n + 10);
  alive = true;
  participant_key = guid n;
  topic_name = text "rt/chat";
  type_name = text "T";
}

abbrev watched : Monitor
watched =
    poll_builtin false (chatter 2 ∷ [])
      (poll_builtin true (chatter 1 ∷ []) (poll_participants (talker ∷ []) empty_monitor))

edge_named : edge_name (text "rt/chat") ≡ some (text "/chat", topic)
unfolding edge_name is_plumbing_topic same_text
edge_named = refl

abbrev chat_edge : Edge
chat_edge = record {
  source = text "/a";
  target = text "participant:" ++ guid_hex (guid 2);
  name = text "/chat";
  kind = topic;
}

watched_by_slots :
    run no_message no_message
      (participant_slot (talker ∷ [])
        ∷ publication_slot (chatter 1 ∷ [])
        ∷ subscription_slot (chatter 2 ∷ [])
        ∷ [])
      empty_monitor
    ≡ ok watched
unfolding run poll_slot
watched_by_slots = refl

abbrev nothing_seen : Snapshot
nothing_seen = record { nodes = []; live = []; topics = []; edges = [] }

abbrev taken : Result Snapshot → Snapshot
taken (ok s) = s
taken (err e) = nothing_seen

abbrev seen : Snapshot
seen = taken (snapshot watched)

snapshot_taken : snapshot watched ≡ ok seen
unfolding snapshot poll_participants poll_participant poll_builtin resolve_live poll_endpoint
    OrderedMap.insert same_text text_before resolve_node OrderedMap.find note_discovery
snapshot_taken = refl

chat_seen : OrderedMap.find chat_edge seen.edges ≡ some tt
unfolding snapshot OrderedMap.find resolve_live poll_builtin poll_endpoint OrderedMap.insert
    poll_participants poll_participant same_text text_before resolve_node note_discovery add_edges
    aggregate edge_name from_sources parse_enclave
chat_seen = refl

edges_iff_example :
    (OrderedMap.find chat_edge seen.edges ≡ some tt)
    ↔ Flow (λ w t n. Exposes w t n seen.live) chat_edge
edges_iff_example = edges_iff watched seen chat_edge snapshot_taken

run-logs_example : length watched.logs ≤ 512
run-logs_example =
    run-logs no_message no_message
      (participant_slot (talker ∷ [])
        ∷ publication_slot (chatter 1 ∷ [])
        ∷ subscription_slot (chatter 2 ∷ [])
        ∷ [])
      empty_monitor watched (omega arith) watched_by_slots

abbrev leaves : ParticipantSample
leaves = record { key = guid 1; alive = false; user_data = none }

poll_participant-IsGone_example :
    IsGone (guid 1) (poll_participant leaves watched)
    × ((g : Guid) (info : EndpointInfo)
        → OrderedMap.find g watched.endpoints ≡ some info
        → info.participant ≢ guid 1
        → OrderedMap.find g (poll_participant leaves watched).endpoints ≡ some info)
    × ((other : Guid)
        → other ≢ guid 1
        → (OrderedMap.find other (poll_participant leaves watched).participants
            ≡ OrderedMap.find other watched.participants)
          × (OrderedMap.find other (poll_participant leaves watched).discovery
              ≡ OrderedMap.find other watched.discovery))
poll_participant-IsGone_example = poll_participant-IsGone leaves watched refl
