-- ===== src/Graph/Complete.antt =====
-- The edges of GraphMonitor::snapshot_json (src/rcllite/graph.cpp): none is left out.
use rcllite.Prelude.{
  true, false, Option, none, some, List, [], ◌∷◌, Bytes, ◌≡◌, ap, ◌∙◌, subst, arith, Bool-cases,
  inl, inr, same_text, same_text_iff,
}
use rcllite.Prelude.OrderedMap
use rcllite.Prelude.OrderedMap.{OrderedMap, Key, text_key, find-insert, same_refl}
use rcllite.Graph.Topics.{
  TextSet, Live, TopicAgg, Topics, aggregate, Kind, Edge, EdgeSet, edge_key, edge_name, to_targets,
  from_sources, topic_edges, add_edges,
}
use rcllite.Graph.Flows.{Exposes, Flow}
use rcllite.Graph.Listed.{Listed, insert_keeps, insert_has, aggregate-Listed}

abbrev Has : EdgeSet → Edge → Type 0
Has edges e = OrderedMap.find e edges ≡ some tt

to_targets_keeps :
    (source : Bytes) (label : Bytes × Kind) (targets : TextSet) (edges : EdgeSet) (e : Edge)
    → Has edges e
    → Has (to_targets source label targets edges) e
unfolding to_targets
to_targets_keeps source label [] edges e h = h
to_targets_keeps source (name, kind) ((target, u) ∷ targets) edges e h =
    to_targets_keeps source (name, kind) targets _ e (insert_keeps _ e edges h)

from_sources_keeps :
    (sources : TextSet) (label : Bytes × Kind) (targets : TextSet) (edges : EdgeSet) (e : Edge)
    → Has edges e
    → Has (from_sources sources label targets edges) e
unfolding from_sources
from_sources_keeps [] label targets edges e h = h
from_sources_keeps ((source, u) ∷ sources) label targets edges e h =
    from_sources_keeps sources label targets _ e (to_targets_keeps source label targets edges e h)

topic_edges_keeps :
    (label : Option (Bytes × Kind)) (agg : TopicAgg) (edges : EdgeSet) (e : Edge)
    → Has edges e
    → Has (topic_edges label agg edges) e
topic_edges_keeps none agg edges e h = h
topic_edges_keeps (some label) agg edges e h =
    from_sources_keeps agg.writers label agg.readers edges e h

add_edges_keeps :
    (topics : Topics) (edges : EdgeSet) (e : Edge) → Has edges e → Has (add_edges topics edges) e
unfolding add_edges
add_edges_keeps [] edges e h = h
add_edges_keeps ((t, agg) ∷ topics) edges e h =
    add_edges_keeps topics _ e (topic_edges_keeps (edge_name t) agg edges e h)

to_targets-Has :
    (source : Bytes) (name : Bytes) (kind : Kind) (targets : TextSet) (edges : EdgeSet)
    (target : Bytes)
    → OrderedMap.find target targets ≡ some tt
    → Has
        (to_targets source (name, kind) targets edges)
        (record { source = source; target = target; name = name; kind = kind })
unfolding to_targets OrderedMap.find
to_targets-Has source name kind [] edges target h = absurd (ground (arith, h))
to_targets-Has source name kind ((other, u) ∷ targets) edges target h =
    elim (Bool-cases (same_text other target)) [
      | inl same ↦
          let e = (same_text_iff other target).0 same in
          to_targets_keeps source (name, kind) targets _ _
            (subst
              (λ t.
                Has
                  (OrderedMap.insert
                    (record { source = source; target = other; name = name; kind = kind }) tt edges)
                  (record { source = source; target = t; name = name; kind = kind }))
              e (insert_has _ edges))
      | inr different ↦ to_targets-Has source name kind targets _ target (rw different at h)
    ]

from_sources-Has :
    (sources : TextSet) (name : Bytes) (kind : Kind) (targets : TextSet) (edges : EdgeSet)
    (source target : Bytes)
    → OrderedMap.find source sources ≡ some tt
    → OrderedMap.find target targets ≡ some tt
    → Has
        (from_sources sources (name, kind) targets edges)
        (record { source = source; target = target; name = name; kind = kind })
unfolding from_sources OrderedMap.find
from_sources-Has [] name kind targets edges source target h k = absurd (ground (arith, h))
from_sources-Has ((other, u) ∷ sources) name kind targets edges source target h k =
    elim (Bool-cases (same_text other source)) [
      | inl same ↦
          from_sources_keeps sources (name, kind) targets _ _
            (subst
              (λ s.
                Has (to_targets other (name, kind) targets edges)
                  (record { source = s; target = target; name = name; kind = kind }))
              ((same_text_iff other source).0 same)
              (to_targets-Has other name kind targets edges target k))
      | inr different ↦
          from_sources-Has sources name kind targets _ source target (rw different at h) k
    ]

topic_edges-Has :
    (label : Option (Bytes × Kind)) (agg : TopicAgg) (edges : EdgeSet) (e : Edge)
    → label ≡ some (e.name, e.kind)
    → OrderedMap.find e.source agg.writers ≡ some tt
    → OrderedMap.find e.target agg.readers ≡ some tt
    → Has (topic_edges label agg edges) e
topic_edges-Has label agg edges e p h k =
    rw p (from_sources-Has agg.writers e.name e.kind agg.readers edges e.source e.target h k)

add_edges-Has :
    (topics : Topics) (edges : EdgeSet) (t : Bytes) (e : Edge)
    → edge_name t ≡ some (e.name, e.kind)
    → Listed true t e.source (OrderedMap.find t topics)
    → Listed false t e.target (OrderedMap.find t topics)
    → Has (add_edges topics edges) e
unfolding add_edges OrderedMap.find
add_edges-Has [] edges t e p h k = absurd (ground (arith, h))
add_edges-Has ((other, agg) ∷ topics) edges t e p h k = elim (Bool-cases (same_text other t)) [
  | inl same ↦ add_edges_keeps topics _ e (
      topic_edges-Has (edge_name other) agg edges e
        (ap edge_name ((same_text_iff other t).0 same) ∙ p) (rw same at h) (rw same at k))
  | inr different ↦ add_edges-Has topics _ t e p (rw different at h) (rw different at k)
]

-- For a writer and a reader on one topic there is an edge between their nodes, under the name that
-- the topic gives its edges.
pub Flow-edges :
    (live : List Live) (e : Edge)
    → Flow (λ w t n. Exposes w t n live) e
    → OrderedMap.find e (add_edges (aggregate live []) []) ≡ some tt
Flow-edges live e f =
    add_edges-Has (aggregate live []) [] f.dds_topic e f.named
      (aggregate-Listed true f.dds_topic e.source live [] f.from_writer)
      (aggregate-Listed false f.dds_topic e.target live [] f.to_reader)
