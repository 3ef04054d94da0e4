-- ===== src/Ffi/Tests.antt =====
-- Runs of src/ffi/rcllite_ffi.cpp, and its theorems at a concrete registry.
use rcllite.Prelude.{◌≡◌, refl, true, false, [], ◌∷◌, text, same_text, ok, err, value_error}
use rcllite.Prelude.OrderedMap
use rcllite.Prelude.OrderedMap.{OrderedMap, number_key}
use rcllite.Names.Maps.{dds_type_name, make_fq_node_name, validate_fqn, ros_to_dds_topic_name}
use rcllite.Node.{Node, new_node}
use rcllite.Ffi.Endpoints.{pub_create, pub_publish, find_pub}
use rcllite.Ffi.Registry.{PubEntry, Registry, node_create, node_destroy, lookup, check_cdr_payload}
use rcllite.Ffi.Handles.{Life, born, creates_node, creates_pub, destroys_node}
use rcllite.Ffi.Given.{given}
use rcllite.Ffi.Opened.{IsOpened, Life-IsOpened}

abbrev start : Registry
start = record { entries = []; next_handle = 1 }

abbrev talker : Node
talker = record {
  name = text "a";
  ns = text "/";
  fq_name = text "/a";
  entities = [];
  entity_epoch = 0;
  guard = false;
}

abbrev one_node : Registry
one_node = record {
  entries = (1, record { node = talker; pubs = []; subs = [] }) ∷ [];
  next_handle = 2;
}

node_made : node_create (λ e. ok tt) (text "a") [] start ≡ ok (one_node, 1)
unfolding node_create new_node make_fq_node_name OrderedMap.insert same_text
node_made = refl

abbrev chat : PubEntry
chat = record { topic = text "/chat"; type = text "p::msg::dds_::T_" }

abbrev one_pub : Registry
one_pub = record {
  entries = (1, record { node = talker; pubs = (2, chat) ∷ []; subs = [] }) ∷ [];
  next_handle = 3;
}

pub_made :
    pub_create (λ t d q. ok tt) 1 (text "/chat") (text "p/msg/T") 10 true false one_node
    ≡ ok (one_pub, 2)
unfolding pub_create dds_type_name lookup OrderedMap.find OrderedMap.insert validate_fqn
    ros_to_dds_topic_name
pub_made = refl

-- A payload without the encapsulation header is refused.
bad_payload :
    pub_publish (λ p b. true) 2 (text "abcd") one_pub
    ≡ err (value_error "payload for '{}' is not a CDR-LE buffer" (text "/chat" ∷ []))
unfolding pub_publish find_pub OrderedMap.find check_cdr_payload
bad_payload = refl

-- A publisher and its node have come and gone, so that the registry is empty again.
abbrev no_node : Registry
no_node = record { entries = []; next_handle = 3 }

abbrev next_node : Registry
next_node = record {
  entries = (3, record { node = talker; pubs = []; subs = [] }) ∷ [];
  next_handle = 4;
}

abbrev next_pub : Registry
next_pub = record {
  entries = (3, record { node = talker; pubs = (4, chat) ∷ []; subs = [] }) ∷ [];
  next_handle = 5;
}

node_gone : (node_destroy 1 one_pub).0 ≡ no_node
unfolding node_destroy OrderedMap.find OrderedMap.erase
node_gone = refl

next_made : node_create (λ e. ok tt) (text "a") [] no_node ≡ ok (next_node, 3)
unfolding node_create new_node make_fq_node_name OrderedMap.insert same_text
next_made = refl

lived : Life next_node
unfolding node_destroy OrderedMap.find OrderedMap.erase
lived =
    creates_node (λ e. ok tt) (text "a") [] no_node next_node 3
      (destroys_node 1 one_pub (
        creates_pub (λ t d q. ok tt) 1 (text "/chat") (text "p/msg/T") 10 true false one_node
          one_pub 2 (creates_node (λ e. ok tt) (text "a") [] start one_node 1 born node_made)
          pub_made))
      next_made

next_pub_made :
    pub_create (λ t d q. ok tt) 3 (text "/chat") (text "p/msg/T") 10 true false next_node
    ≡ ok (next_pub, 4)
unfolding pub_create dds_type_name lookup OrderedMap.find OrderedMap.insert validate_fqn
    ros_to_dds_topic_name
next_pub_made = refl

Life-IsOpened_example :
    IsOpened (text "/chat") (text "p/msg/T") next_node (given lived) (next_pub, 4)
Life-IsOpened_example =
    Life-IsOpened (λ t d q. ok tt) 3 (text "/chat") (text "p/msg/T") 10 true false next_node
      (next_pub, 4) lived next_pub_made
