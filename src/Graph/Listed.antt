-- ===== src/Graph/Listed.antt =====
-- Which nodes the topics of GraphMonitor::snapshot_json (src/rcllite/graph.cpp) list.
use rcllite.Prelude.{
  Bool, true, false, Option, some, List, [], ◌∷◌, Bytes, ◌≡◌, sym, subst, arith, Bool-cases, inl,
  inr, same_text, same_text_iff,
}
use rcllite.Prelude.OrderedMap
use rcllite.Prelude.OrderedMap.{OrderedMap, Key, text_key, find-insert, same_refl}
use rcllite.Graph.Topics.{
  TextSet, Live, TopicAgg, Topics, agg_of, add_endpoint, aggregate, edge_key,
}
use rcllite.Graph.Flows.{Exposes, here, there}

module _ {K : Type 0} ⦃key : Key K⦄ where
  -- A member of a set stays one.
  pub insert_keeps :
      (j k : K) (m : OrderedMap K (Unit {0}))
      → OrderedMap.find k m ≡ some tt
      → OrderedMap.find k (OrderedMap.insert j tt m) ≡ some tt
  insert_keeps j k m h = ground (arith, find-insert j k tt m, h)

  pub insert_has :
      (k : K) (m : OrderedMap K (Unit {0})) → OrderedMap.find k (OrderedMap.insert k tt m) ≡ some tt
  insert_has k m = rw (find-insert k k tt m, same_refl k)

abbrev side : Bool → TopicAgg → TextSet
side true agg = agg.writers
side false agg = agg.readers

-- The node is among the writers or the readers of the topic.
abbrev pub Listed : Bool → Bytes → Bytes → Option TopicAgg → Type 0
Listed w t n agg = OrderedMap.find n (side w (agg_of agg)) ≡ some tt

add_endpoint_keeps :
    (l : Live) (agg : TopicAgg) (w : Bool) (n : Bytes)
    → OrderedMap.find n (side w agg) ≡ some tt
    → OrderedMap.find n (side w (add_endpoint l agg)) ≡ some tt
add_endpoint_keeps l agg true n h = elim (Bool-cases l.info.writer) [
  | inl w ↦ rw w (insert_keeps l.node n agg.writers h)
  | inr r ↦ rw r h
]
add_endpoint_keeps l agg false n h = elim (Bool-cases l.info.writer) [
  | inl w ↦ rw w h
  | inr r ↦ rw r (insert_keeps l.node n agg.readers h)
]

add_endpoint_has :
    (l : Live) (agg : TopicAgg)
    → OrderedMap.find l.node (side l.info.writer (add_endpoint l agg)) ≡ some tt
add_endpoint_has l agg = elim (Bool-cases l.info.writer) [
  | inl w ↦ rw w (insert_has l.node agg.writers)
  | inr r ↦ rw r (insert_has l.node agg.readers)
]

abbrev with_endpoint : Live → Topics → Topics
with_endpoint l topics =
    OrderedMap.insert l.info.topic (add_endpoint l (agg_of (OrderedMap.find l.info.topic topics)))
      topics

with_endpoint_keeps :
    (l : Live) (topics : Topics) (w : Bool) (t n : Bytes)
    → Listed w t n (OrderedMap.find t topics)
    → Listed w t n (OrderedMap.find t (with_endpoint l topics))
with_endpoint_keeps l topics w t n h = elim (Bool-cases (same_text l.info.topic t)) [
  | inl same ↦
      let e = (same_text_iff l.info.topic t).0 same in
      rw
        (
          find-insert l.info.topic t (add_endpoint l (agg_of (OrderedMap.find l.info.topic topics)))
              topics,
          same,
        )
        (add_endpoint_keeps l _ w n
          (subst (λ u. Listed w t n (OrderedMap.find u topics)) (sym e) h))
  | inr other ↦
      rw
        (
          find-insert l.info.topic t (add_endpoint l (agg_of (OrderedMap.find l.info.topic topics)))
              topics,
          other,
        )
        h
]

with_endpoint_has :
    (l : Live) (topics : Topics)
    → Listed l.info.writer l.info.topic l.node
        (OrderedMap.find l.info.topic (with_endpoint l topics))
with_endpoint_has l topics =
    rw
      (
        find-insert l.info.topic l.info.topic
            (add_endpoint l (agg_of (OrderedMap.find l.info.topic topics))) topics,
        same_refl l.info.topic,
      )
      (add_endpoint_has l (agg_of (OrderedMap.find l.info.topic topics)))

aggregate_keeps :
    (live : List Live) (topics : Topics) (w : Bool) (t n : Bytes)
    → Listed w t n (OrderedMap.find t topics)
    → Listed w t n (OrderedMap.find t (aggregate live topics))
unfolding aggregate
aggregate_keeps [] topics w t n h = h
aggregate_keeps (l ∷ live) topics w t n h =
    aggregate_keeps live (with_endpoint l topics) w t n (with_endpoint_keeps l topics w t n h)

pub aggregate-Listed :
    (w : Bool) (t n : Bytes) (live : List Live) (topics : Topics)
    → Exposes w t n live
    → Listed w t n (OrderedMap.find t (aggregate live topics))
unfolding aggregate
aggregate-Listed w t n _ topics (here l live p q r) =
    aggregate_keeps live (with_endpoint l topics) w t n (
      subst (λ b. Listed b t n (OrderedMap.find t (with_endpoint l topics))) p
        (subst (λ u. Listed l.info.writer u n (OrderedMap.find u (with_endpoint l topics))) q
          (subst
            (λ k.
              Listed l.info.writer l.info.topic k
                (OrderedMap.find l.info.topic (with_endpoint l topics)))
            r (with_endpoint_has l topics))))
aggregate-Listed w t n _ topics (there l live x) =
    aggregate-Listed w t n live (with_endpoint l topics) x
