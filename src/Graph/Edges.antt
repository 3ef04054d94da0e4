-- ===== src/Graph/Edges.antt =====
-- What an edge of GraphMonitor::snapshot_json (src/rcllite/graph.cpp) stands for.
use rcllite.Prelude.{[], some, ◌≡◌, ◌↔◌, refl, subst, sym, ok, Ensures, Ensures-ok, Ensures-bind}
use rcllite.Prelude.OrderedMap
use rcllite.Prelude.OrderedMap.{OrderedMap}
use rcllite.Graph.State.{Monitor}
use rcllite.Graph.Topics.{Edge, edge_key, resolve_live, note_discovery, aggregate, add_edges}
use rcllite.Graph.Snapshot.{Snapshot, snapshot}
use rcllite.Graph.Flows.{Exposes, Flow, edges-Flow}
use rcllite.Graph.Complete.{Flow-edges}

snapshot-edges :
    (m : Monitor) → Ensures (λ s. s.edges ≡ add_edges (aggregate s.live []) []) (snapshot m)
unfolding snapshot
snapshot-edges m =
    Ensures-bind (resolve_live m m.endpoints [])
      λ l. Ensures-bind (note_discovery m.self_guid m.discovery l.1) λ announced. Ensures-ok _ refl

-- A snapshot that is taken has an edge exactly where one of its live endpoints writes a topic,
-- one reads it, the topic has a name for edges, and the edge has that name and goes from the
-- node of the first to the node of the second.
pub edges_iff :
    (m : Monitor) (s : Snapshot) (e : Edge)
    → snapshot m ≡ ok s
    → (OrderedMap.find e s.edges ≡ some tt) ↔ Flow (λ w t n. Exposes w t n s.live) e
edges_iff m s e h =
    let eq = (snapshot-edges m).holds s h in
    (
      λ found. edges-Flow s.live e (subst (λ edges. OrderedMap.find e edges ≡ some tt) eq found),
      λ flow.
          subst (λ edges. OrderedMap.find e edges ≡ some tt) (sym eq) (Flow-edges s.live e flow),
    )
