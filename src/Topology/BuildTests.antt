-- ===== src/Topology/BuildTests.antt =====
-- A run of the constructor of src/rcllite/graph_executor.cpp on a small document, and the counters
-- of what it built.
use rcllite.Prelude.{
  ℕ, Bool, true, false, none, some, List, [], ◌∷◌, Bytes, text, ok, same_text, ◌||◌, if◌then◌else◌,
}
use rcllite.Dds.Calls.{
  Trace, Cyclone, value, writecdr, create_sertype, create_qos, create_topic_sertype, create_writer,
  delete_qos,
}
use rcllite.Dds.Qos.{default_qos, make_dds_qos}
use rcllite.Node.Construct.{NodeOwner}
use rcllite.Executor.Core.{new_executor, add_node}
use rcllite.Topology.JsonLib.{JsonLib}
use rcllite.Topology.State.{RawPublisher, GraphExecutor, view_at}
use rcllite.Topology.State
use rcllite.Topology.Host.{Host}
use rcllite.Topology.Publish.{Running}

-- A JSON library that knows one document: a node of a registered class with one publisher.
data Document : Type 0 where
  topology : Document
  node : Document
  endpoint : Document
  one : Document → Document
  string : Bytes → Document
  empty_object : Document

abbrev is_object : Document → Bool
is_object topology = true
is_object node = true
is_object endpoint = true
is_object (one d) = false
is_object (string s) = false
is_object empty_object = true

abbrev is_array : Document → Bool
is_array (one d) = true
is_array _ = false

abbrev elements : Document → List Document
elements (one d) = d ∷ []
elements _ = []

abbrev contains : Document → Bytes → Bool
contains topology key = same_text key (text "nodes")
contains node key =
    same_text key (text "name") || same_text key (text "class") || same_text key (text "publishers")
contains endpoint key = same_text key (text "topic") || same_text key (text "type")
contains _ key = false

abbrev at : Document → Bytes → Document
at topology key = one node
at node key =
    if same_text key (text "name")
    then string (text "a")
    else if same_text key (text "class")
    then string (text "C")
    else one endpoint
at endpoint key = if same_text key (text "topic") then string (text "/t") else string (text "a::T")
at _ key = empty_object

abbrev text_of : Document → Bytes
text_of (string s) = s
text_of _ = []

abbrev documents : JsonLib Document
documents = record {
  from_doc = λ s. ok topology;
  is_object = is_object;
  is_array = is_array;
  is_boolean = λ d. false;
  is_number_integer = λ d. false;
  is_number_float = λ d. false;
  is_string = λ d. false;
  is_empty = λ d. false;
  members = λ d. [];
  elements = elements;
  contains = contains;
  at = λ d key. ok (at d key);
  get_bool = λ d. ok false;
  get_integer = λ d. ok 0;
  get_double = λ d. ok 0;
  get_size = λ d. ok 0;
  get_string = λ d. ok (text_of d);
  value_string = λ d key otherwise. ok otherwise;
  value_double = λ d key otherwise. ok otherwise;
  value_json = λ d key otherwise. ok otherwise;
  object = empty_object;
}

-- A CycloneDDS that answers 0 to every call.
abbrev takes_all : Cyclone
takes_all trace c = value 0

abbrev plain_owner : NodeOwner
plain_owner = record {
  node = record {
    name = text "a";
    ns = text "/";
    fq_name = text "/a";
    entities = [];
    entity_epoch = 0;
    guard = false;
  };
  change_guard = 1;
  ppant = record { handle = 2; publisher = 3; subscriber = 4 };
  discovery = record { ros_topic = []; writer = record { wr = 5; sertype = 6 } };
}

abbrev host : Host Document
host = record {
  json = documents;
  create_by_name = λ cls name ns t. (t, ok (some (plain_owner, none)));
  cyclone = takes_all;
  bits = 32;
  env = record { ros_domain_id = none; ros_localhost_only = none; cyclonedds_uri = none };
  context = record { domain_id = 0; localhost_only = false; config_xml = [] };
  info_type = text "T";
  info_message = record { serialize = λ info w. w; deserialize = λ r. ok (none, r) };
  message_names = record {
    event = text "E";
    describe_parameters = (text "A", text "B");
    get_parameter_types = (text "A", text "B");
    get_parameters = (text "A", text "B");
    list_parameters = (text "A", text "B");
    set_parameters = (text "A", text "B");
    set_parameters_atomically = (text "A", text "B");
  };
  world = record { clock = λ n. n; writes = λ e. true };
  attaches = λ c id. true;
}

-- The calls of the constructor, the newest first.
abbrev built : Trace
built =
    delete_qos
    ∷ create_writer 3 0 (make_dds_qos default_qos)
    ∷ create_topic_sertype 2 (text "rt/t") 0
    ∷ create_qos
    ∷ create_sertype (text "a::T")
    ∷ []

abbrev publisher : ℕ → RawPublisher
publisher published = record {
  topic = text "/t";
  type = text "a::T";
  writer = record { wr = 0; sertype = 0 };
  payload = 0 ∷ 1 ∷ 0 ∷ 0 ∷ [];
  rate_hz = 0;
  published = published;
}

abbrev nodes : ℕ → List State.NodeEntry
nodes published =
    record {
      fq_name = text "/a";
      namespace_ = text "/";
      owner = plain_owner;
      params = none;
      publishers = publisher published ∷ [];
      subscriptions = [];
    }
    ∷ []

abbrev graph : GraphExecutor
graph = record {
  executor = add_node (view_at [] plain_owner) (λ c id. true) 0 new_executor;
  nodes = nodes 0;
}

abbrev started : Running
started = record {
  trace = writecdr 0 (0 ∷ 1 ∷ 0 ∷ 0 ∷ []) ∷ built;
  nodes = nodes 1;
  running = true;
}
