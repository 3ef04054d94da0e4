-- ===== src/Graph/Known.antt =====
-- Which nodes GraphMonitor::snapshot_json (src/rcllite/graph.cpp) lists for what discovery says.
use rcllite.Prelude.{
  true, ◌||◌, some, List, [], ◌∷◌, Bytes, ◌≡◌, ◌≢◌, refl, sym, subst, arith, ok, same_text,
  same_text_iff, Bool-cases, inl, inr, Ensures, Ensures-ok, Ensures-bind, Ensures-then,
}
use rcllite.Prelude.OrderedMap
use rcllite.Prelude.OrderedMap.{OrderedMap, text_key, find-insert, same_refl}
use rcllite.Names.Search.{found, is_empty}
use rcllite.Names.Maps.{make_fq_node_name}
use rcllite.Graph.State.{Guid, NodeEntitiesInfo, ParticipantEntitiesInfo, Monitor}
use rcllite.Graph.Resolve.{Source, discovery, user_data}
use rcllite.Graph.Topics.{
  Nodes, note_node, note_infos, note_discovery, note_participants, resolve_live,
}
use rcllite.Graph.Snapshot.{Snapshot, snapshot}

-- The node has an entry.
abbrev pub IsKnown : Bytes → Nodes → Type 0
IsKnown name nodes = found (OrderedMap.find name nodes) ≡ true

-- One of the nodes has the name.
pub data Names (name : Bytes) : List NodeEntitiesInfo → Type 0 where
  first :
      (x : NodeEntitiesInfo) (xs : List NodeEntitiesInfo)
      → make_fq_node_name x.node_namespace x.node_name ≡ ok name
      → Names name (x ∷ xs)
  later : (x : NodeEntitiesInfo) (xs : List NodeEntitiesInfo) → Names name xs → Names name (x ∷ xs)

note_node-keeps :
    (name other : Bytes) (source : Source) (nodes : Nodes)
    → IsKnown name nodes
    → IsKnown name (note_node other source nodes)
unfolding note_node
note_node-keeps name other source nodes h = rw (find-insert other name _ nodes) (ground (arith, h))

note_node-knows :
    (name : Bytes) (source : Source) (nodes : Nodes) → IsKnown name (note_node name source nodes)
unfolding note_node
note_node-knows name source nodes = rw (find-insert name name _ nodes, same_refl name) refl

note_infos-keeps :
    (name : Bytes) (infos : List NodeEntitiesInfo) (nodes : Nodes)
    → IsKnown name nodes
    → Ensures (IsKnown name) (note_infos infos nodes)
unfolding note_infos
note_infos-keeps name [] nodes h = Ensures-ok nodes h
note_infos-keeps name (x ∷ xs) nodes h =
    Ensures-bind (make_fq_node_name x.node_namespace x.node_name) (λ n.
      note_infos-keeps name xs (note_node n discovery nodes)
        (note_node-keeps name n discovery nodes h))

note_infos-knows :
    (name : Bytes) (infos : List NodeEntitiesInfo) (nodes : Nodes)
    → Names name infos
    → Ensures (IsKnown name) (note_infos infos nodes)
unfolding note_infos
note_infos-knows name _ nodes (first x xs e) = rw e (
    note_infos-keeps name xs (note_node name discovery nodes)
      (note_node-knows name discovery nodes))
note_infos-knows name _ nodes (later x xs n) =
    Ensures-bind (make_fq_node_name x.node_namespace x.node_name)
      (λ k. note_infos-knows name xs (note_node k discovery nodes) n)

note_discovery-keeps :
    (self name : Bytes) (infos : OrderedMap Guid ParticipantEntitiesInfo) (nodes : Nodes)
    → IsKnown name nodes
    → Ensures (IsKnown name) (note_discovery self infos nodes)
unfolding note_discovery
note_discovery-keeps self name [] nodes h = Ensures-ok nodes h
note_discovery-keeps self name ((guid, info) ∷ infos) nodes h =
    elim (Bool-cases (same_text guid self)) [
      | inl own ↦ rw own (note_discovery-keeps self name infos nodes h)
      | inr other ↦ rw other (
          Ensures-then (note_infos info.node_entities_info_seq nodes)
            (note_infos-keeps name info.node_entities_info_seq nodes h)
            (λ nodes' h'. note_discovery-keeps self name infos nodes' h'))
    ]

note_discovery-knows :
    (self name guid : Bytes) (info : ParticipantEntitiesInfo)
    (infos : OrderedMap Guid ParticipantEntitiesInfo) (nodes : Nodes)
    → OrderedMap.find guid infos ≡ some info
    → guid ≢ self
    → Names name info.node_entities_info_seq
    → Ensures (IsKnown name) (note_discovery self infos nodes)
unfolding note_discovery OrderedMap.find
note_discovery-knows self name guid info [] nodes e n h = absurd (ground (arith, e))
note_discovery-knows self name guid info ((g, i) ∷ infos) nodes e n h =
    elim (Bool-cases (same_text g self)) [
      | inl own ↦ rw own (
          note_discovery-knows self name guid info infos nodes
            (ground (arith, e, own, n, same_text_iff g self, same_text_iff g guid)) n h)
      | inr other ↦ rw other (elim (Bool-cases (same_text g guid)) [
        | inl same ↦
            Ensures-then (note_infos i.node_entities_info_seq nodes)
              (note_infos-knows name i.node_entities_info_seq nodes (
                subst (λ j. Names name j.node_entities_info_seq)
                  (sym (some_injective (rw same at e))) h))
              (λ nodes' h'. note_discovery-keeps self name infos nodes' h')
        | inr apart ↦
            Ensures-bind (note_infos i.node_entities_info_seq nodes)
              (λ nodes'. note_discovery-knows self name guid info infos nodes' (rw apart at e) n h)
      ])
    ]
  where
    some_injective : {a b : ParticipantEntitiesInfo} → some a ≡ some b → a ≡ b
    some_injective p = cc

note_participants-keeps :
    (self name : Bytes) (ps : OrderedMap Guid Bytes) (nodes : Nodes)
    → IsKnown name nodes
    → IsKnown name (note_participants self ps nodes)
unfolding note_participants
note_participants-keeps self name [] nodes h = h
note_participants-keeps self name ((guid, enclave) ∷ ps) nodes h =
    elim (Bool-cases (same_text guid self || is_empty enclave)) [
      | inl skip ↦ rw skip (note_participants-keeps self name ps nodes h)
      | inr seen ↦ rw seen (
          note_participants-keeps self name ps (note_node enclave user_data nodes)
            (note_node-keeps name enclave user_data nodes h))
    ]

-- A snapshot that is taken lists each node whose name another participant's discovery entry has.
pub snapshot-knows :
    (m : Monitor) (s : Snapshot) (name guid : Bytes) (info : ParticipantEntitiesInfo)
    → OrderedMap.find guid m.discovery ≡ some info
    → guid ≢ m.self_guid
    → Names name info.node_entities_info_seq
    → snapshot m ≡ ok s
    → IsKnown name s.nodes
unfolding snapshot
snapshot-knows m s name guid info e n h k = taken.holds s k
  where
    taken : Ensures (λ s'. IsKnown name s'.nodes) (snapshot m)
    taken = Ensures-bind (resolve_live m m.endpoints []) (λ l.
        Ensures-then (note_discovery m.self_guid m.discovery l.1)
          (note_discovery-knows m.self_guid name guid info m.discovery l.1 e n h)
          (λ nodes known.
            Ensures-ok _ (note_participants-keeps m.self_guid name m.participants nodes known)))
