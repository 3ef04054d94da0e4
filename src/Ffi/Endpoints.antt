-- ===== src/Ffi/Endpoints.antt =====
-- The publishers and subscriptions of src/ffi/rcllite_ffi.cpp. A subscription is named by its handle
-- wherever the source shares a pointer.
use rcllite.Prelude.{
  ℕ, ◌+◌, Bool, true, false, not, Option, none, some, List, [], ◌∷◌, Bytes, if◌then◌else◌, Result,
  ok, err, value_error, unless, ◌>>=◌,
}
use rcllite.Prelude.OrderedMap
use rcllite.Prelude.OrderedMap.{OrderedMap, number_key}
use rcllite.Json.Escape.{decimal}
use rcllite.Names.Maps.{dds_type_name, ros_to_dds_topic_name}
use rcllite.Dds.Qos.{Qos}
use rcllite.Dds.Take.{Sample}
use rcllite.Node.{add_entity, remove_entity}
use rcllite.Ffi.Registry.{
  NodeEntry, PubEntry, Registry, SubEntry, check_cdr_payload, lookup, qos_from_args,
}

-- entry.pubs.emplace(handle, ...) on the entry of a node.
abbrev pub with_pub : PubEntry → ℕ → NodeEntry → Registry → Registry
with_pub pub_entry node_handle entry g = record {
  entries =
      OrderedMap.insert node_handle
        (record entry { pubs = OrderedMap.insert g.next_handle pub_entry entry.pubs }) g.entries;
  next_handle = g.next_handle + 1;
}

abbrev pub with_sub : SubEntry → ℕ → NodeEntry → Registry → Registry
with_sub sub node_handle entry g = record {
  entries =
      OrderedMap.insert node_handle
        (record entry {
          node = add_entity g.next_handle entry.node;
          subs = OrderedMap.insert g.next_handle sub entry.subs;
        })
        g.entries;
  next_handle = g.next_handle + 1;
}

-- `open_writer` makes a DDS writer for a topic, a type and a QoS.
unfoldable pub pub_create :
    (Bytes → Bytes → Qos → Result (Unit {0}))
    → ℕ
    → Bytes
    → Bytes
    → ℕ
    → Bool
    → Bool
    → Registry
    → Result (Registry × ℕ)
pub_create open_writer node_handle topic type_name depth reliable transient_local g = do
  dds_type ← dds_type_name type_name
  entry ← lookup node_handle g
  dds_topic ← ros_to_dds_topic_name topic
  opened ← open_writer dds_topic dds_type (qos_from_args depth reliable transient_local)
  ok (with_pub (record { topic = topic; type = dds_type }) node_handle entry g, g.next_handle)

unfoldable pub sub_create :
    (Bytes → Bytes → Qos → Result (Unit {0}))
    → ℕ
    → Bytes
    → Bytes
    → ℕ
    → Bool
    → Bool
    → ℕ
    → Registry
    → Result (Registry × ℕ)
sub_create open_reader node_handle topic type_name depth reliable transient_local callback g = do
  dds_type ← dds_type_name type_name
  entry ← lookup node_handle g
  dds_topic ← ros_to_dds_topic_name topic
  opened ← open_reader dds_topic dds_type (qos_from_args depth reliable transient_local)
  ok (
    with_sub (record { topic = topic; type = dds_type; callback = callback; closed = false })
        node_handle entry g,
    g.next_handle,
  )

-- The loop over the registry that looks for a publisher. The map of the source has no order; a
-- handle is in one entry at most.
unfoldable pub find_pub : ℕ → OrderedMap ℕ NodeEntry → Option PubEntry
find_pub handle [] = none
find_pub handle ((node, entry) ∷ entries) = elim (OrderedMap.find handle entry.pubs) [
  | some pub_entry ↦ some pub_entry
  | none ↦ find_pub handle entries
]

abbrev pub publish_found :
    (PubEntry → Bytes → Bool) → ℕ → Bytes → Option PubEntry → Result (Unit {0})
publish_found write handle payload none =
    err (value_error "unknown publisher handle: {}" (decimal handle ∷ []))
publish_found write handle payload (some pub_entry) = do
  checked ← check_cdr_payload payload pub_entry.topic
  unless (not (write pub_entry payload))
      (value_error "publish failed on '{}'" (pub_entry.topic ∷ [])) (ok tt)

-- `write` is the answer of a publisher's DDS writer to a payload.
unfoldable pub pub_publish : (PubEntry → Bytes → Bool) → ℕ → Bytes → Registry → Result (Unit {0})
pub_publish write handle payload g = publish_found write handle payload (find_pub handle g.entries)

-- The loop stops at the entry that had the publisher.
unfoldable pub erase_pub : ℕ → OrderedMap ℕ NodeEntry → OrderedMap ℕ NodeEntry
erase_pub handle [] = []
erase_pub handle ((node, entry) ∷ entries) = elim (OrderedMap.find handle entry.pubs) [
  | some pub_entry ↦ (node, record entry { pubs = OrderedMap.erase handle entry.pubs }) ∷ entries
  | none ↦ (node, entry) ∷ erase_pub handle entries
]

unfoldable pub pub_destroy : ℕ → Registry → Registry
pub_destroy handle g = record g { entries = erase_pub handle g.entries }

-- The loop that takes a subscription out, and out of its node. Once more, one entry has it. The
-- subscription itself, with `closed` set, is what an executor may still hold.
unfoldable pub erase_sub : ℕ → OrderedMap ℕ NodeEntry → OrderedMap ℕ NodeEntry × Option SubEntry
erase_sub handle [] = ([], none)
erase_sub handle ((node, entry) ∷ entries) = elim (OrderedMap.find handle entry.subs) [
  | some sub ↦ (
    (
      node,
      record entry {
        node = remove_entity handle entry.node;
        subs = OrderedMap.erase handle entry.subs;
      },
    )
        ∷ entries,
    some (record sub { closed = true }),
  )
  | none ↦ let (rest, closed_sub) = erase_sub handle entries in ((node, entry) ∷ rest, closed_sub)
]

unfoldable pub sub_destroy : ℕ → Registry → Registry × Option SubEntry
sub_destroy handle g =
    let (entries, closed_sub) = erase_sub handle g.entries in
    (record g { entries = entries }, closed_sub)

-- SubEntry::dispatch on the samples of a take: the payloads that the callback is called with.
unfoldable pub forwarded : List Sample → List Bytes
forwarded [] = []
forwarded (s ∷ samples) =
    let rest = forwarded samples in if s.valid_data then s.payload ∷ rest else rest

unfoldable pub sub_dispatch : SubEntry → List Sample → List Bytes
unfolding forwarded
sub_dispatch sub samples = if sub.closed then [] else forwarded samples
