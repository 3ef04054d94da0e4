-- ===== src/Topology/Status.antt =====
-- status_json and registered_nodes_json of src/rcllite/graph_executor.cpp.
use rcllite.Prelude.{
  Bool, true, false, List, [], ◌∷◌, ◌++◌, Bytes, text, text_before, if◌then◌else◌,
}
use rcllite.Json.Escape.{json_escape_string, decimal}
use rcllite.Topology.State.{RawPublisher, RawSubscription, NodeEntry}

unfoldable pub publisher_json : RawPublisher → Bytes
publisher_json p =
    text "\"topic\":"
    ++ json_escape_string p.topic
    ++ text ",\"type\":"
    ++ json_escape_string p.type
    ++ text ",\"published\":"
    ++ decimal p.published
    ++ text "}"

unfoldable pub subscription_json : RawSubscription → Bytes
subscription_json s =
    text "\"topic\":"
    ++ json_escape_string s.topic
    ++ text ",\"type\":"
    ++ json_escape_string s.type
    ++ text ",\"received\":"
    ++ decimal s.received
    ++ text "}"

-- The three loops over objects, with the flag that is true in front of the first one only.
unfoldable pub items_json : {A : Type 0} → (A → Bytes) → Bool → List A → Bytes
items_json item first [] = []
items_json item first (x ∷ xs) =
    (if first then text "{" else text ",{") ++ item x ++ items_json item false xs

unfoldable pub node_json : NodeEntry → Bytes
unfolding publisher_json subscription_json items_json
node_json entry =
    text "\"name\":"
    ++ json_escape_string entry.fq_name
    ++ text ",\"publishers\":["
    ++ items_json publisher_json true entry.publishers
    ++ text "],\"subscriptions\":["
    ++ items_json subscription_json true entry.subscriptions
    ++ text "]}"

unfoldable pub status_json : List NodeEntry → Bytes
unfolding node_json items_json
status_json nodes = text "{\"nodes\":[" ++ items_json node_json true nodes ++ text "]}"

-- std::sort; the names are different, so that any sort gives this list.
unfoldable pub insert_name : Bytes → List Bytes → List Bytes
insert_name x [] = x ∷ []
insert_name x (y ∷ ys) =
    let rest = insert_name x ys in if text_before y x then y ∷ rest else x ∷ y ∷ ys

unfoldable pub sorted : List Bytes → List Bytes
unfolding insert_name
sorted [] = []
sorted (x ∷ xs) = insert_name x (sorted xs)

unfoldable pub names_json : Bool → List Bytes → Bytes
names_json first [] = []
names_json first (name ∷ names) =
    (if first then [] else text ",") ++ json_escape_string name ++ names_json false names

-- `registered` is what NodeRegistry::GetRegisteredNames gives.
unfoldable pub registered_nodes_json : List Bytes → Bytes
unfolding sorted names_json
registered_nodes_json registered = text "[" ++ names_json true (sorted registered) ++ text "]"
