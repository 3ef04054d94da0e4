-- ===== src/Ffi/Registry.antt =====
-- The registry of nodes, publishers and subscriptions of src/ffi/rcllite_ffi.cpp. A handle stands
-- for its object: a subscription is named by its handle wherever the source shares a pointer. The
-- counter is an int64_t that is taken to stay in range.
use rcllite.Prelude.{
  ℕ, ◌+◌, Bool, true, false, not, ◌&&◌, Option, none, some, List, [], ◌∷◌, ◌++◌, Bytes, text, ltb,
  ◌==◌, same_text, if◌then◌else◌, Result, ok, err, Error, value_error, unless, ◌>>=◌,
}
use rcllite.Prelude.OrderedMap
use rcllite.Prelude.OrderedMap.{OrderedMap, number_key}
use rcllite.Json.Escape.{decimal}
use rcllite.Dds.Qos.{Qos, default_qos, keep_last, set_best_effort, set_transient_local}
use rcllite.Dds.Config
use rcllite.Dds.Config.{Globals, tcp_config_xml}
use rcllite.Node.{Node, new_node}

pub record PubEntry : Type 0 where
  pub topic : Bytes
  pub type : Bytes

pub record SubEntry : Type 0 where
  pub topic : Bytes
  pub type : Bytes
  pub callback : ℕ
  pub closed : Bool

pub record NodeEntry : Type 0 where
  pub node : Node
  pub pubs : OrderedMap ℕ PubEntry
  pub subs : OrderedMap ℕ SubEntry

-- g_registry and g_next_handle.
pub record Registry : Type 0 where
  pub entries : OrderedMap ℕ NodeEntry
  pub next_handle : ℕ

abbrev pub unknown_node : ℕ → Error
unknown_node handle = value_error "unknown node handle: {}" (decimal handle ∷ [])

unfoldable pub lookup : ℕ → Registry → Result NodeEntry
lookup handle g = elim (OrderedMap.find handle g.entries) [
  | none ↦ err (unknown_node handle)
  | some entry ↦ ok entry
]

-- `participant` makes the DDS participant of a node.
unfoldable pub node_create :
    (Bytes → Result (Unit {0})) → Bytes → Bytes → Registry → Result (Registry × ℕ)
node_create participant name namespace g = do
  node ← new_node participant name namespace
  let entry : NodeEntry = record { node = node; pubs = []; subs = [] } in
      ok (
        record {
          entries = OrderedMap.insert g.next_handle entry g.entries;
          next_handle = g.next_handle + 1;
        },
        g.next_handle,
      )

-- The node's executor is cancelled where there was an entry.
unfoldable pub node_destroy : ℕ → Registry → Registry × Bool
node_destroy handle g = elim (OrderedMap.find handle g.entries) [
  | none ↦ (g, false)
  | some entry ↦ (record g { entries = OrderedMap.erase handle g.entries }, true)
]

unfoldable pub node_name : ℕ → Registry → Result Bytes
node_name handle g = do entry ← lookup handle g; ok entry.node.name

unfoldable pub node_namespace : ℕ → Registry → Result Bytes
node_namespace handle g = do entry ← lookup handle g; ok entry.node.ns

unfoldable pub node_fq_name : ℕ → Registry → Result Bytes
node_fq_name handle g = do entry ← lookup handle g; ok entry.node.fq_name

unfoldable pub qos_from_args : ℕ → Bool → Bool → Qos
qos_from_args depth reliable transient_local =
    let qos = keep_last depth default_qos in
    let effort = if reliable then qos else set_best_effort qos in
    if transient_local then set_transient_local effort else effort

abbrev pub starts_as_cdr : Bytes → Bool
starts_as_cdr (a ∷ b ∷ c ∷ d ∷ rest) = a == 0x00 && b == 0x01
starts_as_cdr _ = false

unfoldable pub check_cdr_payload : Bytes → Bytes → Result (Unit {0})
check_cdr_payload payload topic =
    unless (not (starts_as_cdr payload))
      (value_error "payload for '{}' is not a CDR-LE buffer" (topic ∷ [])) (ok tt)

-- The peers to dial: not the listener itself.
unfoldable pub dial_list : Bytes → List Bytes → List Bytes
dial_list own [] = []
dial_list own (peer ∷ peers) =
    let rest = dial_list own peers in if same_text peer own then rest else peer ∷ rest

-- `none` stands for a negative port or domain.
abbrev pub tcp_xml : Option ℕ → List Bytes → Bytes → Bytes
tcp_xml none peers interface = []
tcp_xml (some port) peers interface =
    if ltb 0 port
    then tcp_config_xml port (dial_list (text "127.0.0.1:" ++ decimal port) peers) interface
    else []

abbrev pub above : ℕ → Option ℕ → Bool
above limit none = false
above limit (some v) = ltb limit v

abbrev pub shown : Option ℕ → Bytes
shown none = []
shown (some v) = decimal v

unfoldable pub init_dds :
    Option ℕ → List Bytes → Option ℕ → Bytes → Globals → Globals × Result (Unit {0})
init_dds tcp_port peers domain_id interface g =
    if above 0xffff tcp_port
    then (g, err (value_error "tcp_port out of range: {}" (shown tcp_port ∷ [])))
    else if above 232 domain_id
    then (g, err (value_error "domain_id out of range (0-232): {}" (shown domain_id ∷ [])))
    else Config.configure domain_id (tcp_xml tcp_port peers interface) g
