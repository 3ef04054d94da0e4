-- ===== src/Graph/Flows.antt =====
-- The edges of GraphMonitor::snapshot_json (src/rcllite/graph.cpp) against the endpoints.
use rcllite.Prelude.{
  Bool, true, false, Option, none, some, List, [], ◌∷◌, Bytes, All, ◌≡◌, refl, subst, Bool-cases,
  Option-cases, inl, inr,
}
use rcllite.Prelude.OrderedMap
use rcllite.Prelude.OrderedMap.{
  All-insert, find-All, OrderedMap, Key, text_key, find-insert, same_refl,
}
use rcllite.Graph.Topics.{
  TextSet, Live, TopicAgg, Topics, agg_of, add_endpoint, aggregate, Kind, Edge, EdgeSet, edge_key,
  edge_name, to_targets, from_sources, topic_edges, add_edges,
}

-- A live endpoint of a node, writer or not, on a topic.
pub data Exposes (writer : Bool) (dds_topic node : Bytes) : List Live → Type 0 where
  here :
      (l : Live) (live : List Live)
      → l.info.writer ≡ writer
      → l.info.topic ≡ dds_topic
      → l.node ≡ node
      → Exposes writer dds_topic node (l ∷ live)
  there :
      (l : Live) (live : List Live)
      → Exposes writer dds_topic node live
      → Exposes writer dds_topic node (l ∷ live)

-- What the code's loops preserve, for any P that holds of the endpoints.
module _ (P : Bool → Bytes → Bytes → Type 0) where
  abbrev Backed : Bytes × TopicAgg → Type 0
  Backed entry =
      All (λ x. P true entry.0 x.0) entry.1.writers × All (λ x. P false entry.0 x.0) entry.1.readers

  abbrev OfEndpoint : Live → Type 0
  OfEndpoint l = P l.info.writer l.info.topic l.node

  agg-Backed :
      (t : Bytes) (topics : Topics)
      → All Backed topics
      → Backed (t, agg_of (OrderedMap.find t topics))
  agg-Backed t topics h = elim (Option-cases (OrderedMap.find t topics)) [
    | inl e ↦ rw e (tt, tt)
    | inr (agg, e) ↦ rw e (find-All Backed t agg topics h e)
  ]

  add_endpoint-Backed :
      (l : Live) (agg : TopicAgg)
      → OfEndpoint l
      → Backed (l.info.topic, agg)
      → Backed (l.info.topic, add_endpoint l agg)
  add_endpoint-Backed l agg p b = elim (Bool-cases l.info.writer) [
    | inl w ↦ rw w (
      All-insert (λ x. P true l.info.topic x.0) l.node tt agg.writers
          (subst (λ b. P b l.info.topic l.node) w p) b.0,
      b.1,
    )
    | inr r ↦ rw r (
      b.0,
      All-insert (λ x. P false l.info.topic x.0) l.node tt agg.readers
          (subst (λ b. P b l.info.topic l.node) r p) b.1,
    )
  ]

  aggregate-Backed :
      (live : List Live) (topics : Topics)
      → All OfEndpoint live
      → All Backed topics
      → All Backed (aggregate live topics)
  unfolding aggregate
  aggregate-Backed [] topics h b = b
  aggregate-Backed (l ∷ live) topics h b = aggregate-Backed live _ h.1 (
      All-insert Backed l.info.topic (add_endpoint l (agg_of (OrderedMap.find l.info.topic topics)))
        topics
        (add_endpoint-Backed l (agg_of (OrderedMap.find l.info.topic topics)) h.0
          (agg-Backed l.info.topic topics b))
        b)

  -- An edge from a writer to a reader of a topic that it is named after.
  pub record Flow (e : Edge) : Type 0 where
    pub dds_topic : Bytes
    pub named : edge_name dds_topic ≡ some (e.name, e.kind)
    pub from_writer : P true dds_topic e.source
    pub to_reader : P false dds_topic e.target

  abbrev IsFlow : Edge × Unit {0} → Type 0
  IsFlow entry = Flow entry.0

  module _ (t : Bytes) (name : Bytes) (kind : Kind) (named : edge_name t ≡ some (name, kind)) where
    to_targets-Flow :
        (source : Bytes) (targets : TextSet) (edges : EdgeSet)
        → P true t source
        → All (λ x. P false t x.0) targets
        → All IsFlow edges
        → All IsFlow (to_targets source (name, kind) targets edges)
    unfolding to_targets
    to_targets-Flow source [] edges p h k = k
    to_targets-Flow source ((target, u) ∷ targets) edges p h k =
        to_targets-Flow source targets _ p h.1 (
          All-insert IsFlow (record { source = source; target = target; name = name; kind = kind })
            tt edges (record { dds_topic = t; named = named; from_writer = p; to_reader = h.0 }) k)

    from_sources-Flow :
        (sources targets : TextSet) (edges : EdgeSet)
        → All (λ x. P true t x.0) sources
        → All (λ x. P false t x.0) targets
        → All IsFlow edges
        → All IsFlow (from_sources sources (name, kind) targets edges)
    unfolding from_sources
    from_sources-Flow [] targets edges p h k = k
    from_sources-Flow ((source, u) ∷ sources) targets edges p h k =
        from_sources-Flow sources targets _ p.1 h (to_targets-Flow source targets edges p.0 h k)

  topic_edges-Flow :
      (t : Bytes) (label : Option (Bytes × Kind)) (agg : TopicAgg) (edges : EdgeSet)
      → edge_name t ≡ label
      → Backed (t, agg)
      → All IsFlow edges
      → All IsFlow (topic_edges label agg edges)
  topic_edges-Flow t none agg edges e b k = k
  topic_edges-Flow t (some (name, kind)) agg edges e b k =
      from_sources-Flow t name kind e agg.writers agg.readers edges b.0 b.1 k

  add_edges-Flow :
      (topics : Topics) (edges : EdgeSet)
      → All Backed topics
      → All IsFlow edges
      → All IsFlow (add_edges topics edges)
  unfolding add_edges
  add_edges-Flow [] edges b k = k
  add_edges-Flow ((t, agg) ∷ topics) edges b k =
      add_edges-Flow topics _ b.1 (topic_edges-Flow t (edge_name t) agg edges refl b.0 k)

endpoints_back :
    (live rest : List Live)
    → ((w : Bool) (t n : Bytes) → Exposes w t n rest → Exposes w t n live)
    → All (λ l. Exposes l.info.writer l.info.topic l.node live) rest
endpoints_back live [] h = tt
endpoints_back live (l ∷ rest) h = (
  h _ _ _ (here l rest refl refl refl),
  endpoints_back live rest (λ w t n x. h w t n (there l rest x)),
)

-- Every edge between the topics of some endpoints goes from a node with a writer to a node with a
-- reader of one topic, which the edge is named after.
pub edges-Flow :
    (live : List Live) (e : Edge)
    → OrderedMap.find e (add_edges (aggregate live []) []) ≡ some tt
    → Flow (λ w t n. Exposes w t n live) e
edges-Flow live e found =
    let P : Bool → Bytes → Bytes → Type 0 = λ w t n. Exposes w t n live in
    find-All (IsFlow P) e tt _
      (add_edges-Flow P _ []
        (aggregate-Backed P live [] (endpoints_back live live (λ w t n x. x)) tt) tt)
      found
