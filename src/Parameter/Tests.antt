-- ===== src/Parameter/Tests.antt =====
-- Runs of the parameter code (src/rcllite/parameter.cpp) on small stores, and its theorems there.
use rcllite.Prelude.{
  ◌≡◌, refl, ◌⊎◌, true, false, none, List, [], ◌∷◌, Bytes, ok, err, All, text, invalid_arguments,
  same_text, ◌==◌,
}
use rcllite.Prelude.OrderedMap
use rcllite.Prelude.OrderedMap.{OrderedMap, text_key}
use rcllite.Parameter.Value.{
  RclParameter, new_value, not_set, bool_type, integer_to_value, bool_to_value, to_rcl_value,
}
use rcllite.Parameter.Core.{
  World, ParameterCore, declare, set, publish_if_set, publish_event_locked,
}
use rcllite.Parameter.Laws.{value_at}
use rcllite.Parameter.Handlers.{SetParametersResult, type_of, handle_set_atomically, undeclared}
use rcllite.Parameter.Atomic.{IsDeclared, assigned, handle_set_atomically_lem}
use rcllite.Parameter.Typed.{Reports, set-Reports}
use rcllite.Parameter.Replay.{Life, born, declares, sets, watch, shown, Life-IsWatched}
use rcllite.Names.Maps.{
  ros_to_dds_topic_name, ros_to_dds_request_topic_name, ros_to_dds_reply_topic_name, validate_fqn,
}
use rcllite.Dds.Calls.{Cyclone, value}
use rcllite.Dds.Entities.{Participant, make_reader, make_writer}
use rcllite.Node.{Node}
use rcllite.Node.Endpoints.{make_publisher, make_service}
use rcllite.Parameter.Services.{
  MessageNames, ParameterImpl, add_service, add_services, make_parameter_impl,
}
use rcllite.Parameter.Registered.{Gained, make_parameter_impl-entities}

abbrev quiet_world : World
quiet_world = record { clock = λ n. n; writes = λ e. true }

abbrev fresh : ParameterCore
fresh = record { node_name = text "/talker"; values = []; events = [] }

abbrev one_declared : ParameterCore
one_declared = (declare quiet_world (text "rate") (integer_to_value 10) fresh).0

abbrev request : List RclParameter
request =
    record { name = text "rate"; value = to_rcl_value (integer_to_value 20) }
    ∷ record { name = text "loud"; value = to_rcl_value (bool_to_value true) }
    ∷ []

declared_twice :
    (declare quiet_world (text "rate") new_value one_declared).1
    ≡ err (invalid_arguments "parameter already declared: {}" (text "rate" ∷ []))
unfolding declare OrderedMap.find publish_if_set integer_to_value publish_event_locked
    OrderedMap.insert same_text
declared_twice = refl

half_declared :
    (handle_set_atomically quiet_world request one_declared).1
    ≡ ok (record { successful = false; reason = text "parameters not declared: loud" })
unfolding handle_set_atomically declare OrderedMap.find undeclared publish_if_set integer_to_value
    publish_event_locked OrderedMap.insert same_text
half_declared = refl

-- A number that becomes a truth value, and a name that is not declared.
set-Reports_example :
    Reports
      (text "rate" ∷ text "loud" ∷ [])
      (bool_type ∷ not_set ∷ [])
      (set quiet_world (text "rate") (bool_to_value true) one_declared).0
unfolding declare OrderedMap.find publish_if_set integer_to_value publish_event_locked
    OrderedMap.insert same_text bool_to_value type_of
set-Reports_example =
    set-Reports quiet_world (text "rate") (bool_to_value true) one_declared
      (text "rate" ∷ text "loud" ∷ [])

handle_set_atomically_lem_example :
    (All (IsDeclared one_declared) request
      × ((handle_set_atomically quiet_world request one_declared).1
          ≡ ok (record { successful = true; reason = [] }))
      × ((name : Bytes)
          → value_at name (handle_set_atomically quiet_world request one_declared).0
            ≡ assigned request name (value_at name one_declared)))
    ⊎ (¬ (All (IsDeclared one_declared) request)
        × ((handle_set_atomically quiet_world request one_declared).0 ≡ one_declared)
        × ((r : SetParametersResult) × ((handle_set_atomically quiet_world request one_declared).1
              ≡ ok r)
            × (r.successful ≡ false)))
handle_set_atomically_lem_example =
    handle_set_atomically_lem quiet_world (λ e. refl) request one_declared

abbrev started : Life quiet_world (λ e. refl) fresh one_declared
started = declares (text "rate") (integer_to_value 10) fresh born

abbrev faster : ParameterCore
faster = (set quiet_world (text "rate") (integer_to_value 20) one_declared).0

rate_is_integer : (integer_to_value 20).type == not_set ≡ false
unfolding integer_to_value
rate_is_integer = refl

Life-IsWatched_example :
    watch faster.events (text "rate") none ≡ shown (value_at (text "rate") faster)
Life-IsWatched_example =
    Life-IsWatched quiet_world (λ e. refl) (text "/talker")
      (sets (text "rate") (integer_to_value 20) one_declared started rate_is_integer) (text "rate")

-- The services of a new node, on a CycloneDDS in which every call goes well.
abbrev node_a : Node
node_a = record {
  name = text "a";
  ns = text "/";
  fq_name = text "/a";
  entities = [];
  entity_epoch = 0;
  guard = false;
}

abbrev all_well : Cyclone
all_well trace c = value 7

abbrev participant : Participant
participant = record { handle = 1; publisher = 2; subscriber = 3 }

abbrev names : MessageNames
names = record {
  event = text "E";
  describe_parameters = (text "A", text "B");
  get_parameter_types = (text "A", text "B");
  get_parameters = (text "A", text "B");
  list_parameters = (text "A", text "B");
  set_parameters = (text "A", text "B");
  set_parameters_atomically = (text "A", text "B");
}

abbrev impl_a : ParameterImpl
impl_a = record {
  core = record { node_name = text "/a"; values = []; events = [] };
  events_pub = record {
    ros_topic = text "/parameter_events";
    writer = record { wr = 7; sertype = 7 };
  };
}

make_parameter_impl-entities_example :
    Gained 6 node_a (make_parameter_impl all_well participant names ([], node_a)).0.1
unfolding make_parameter_impl add_services add_service make_publisher make_service make_reader
    make_writer ros_to_dds_topic_name ros_to_dds_request_topic_name ros_to_dds_reply_topic_name
    validate_fqn
make_parameter_impl-entities_example =
    make_parameter_impl-entities all_well participant names [] node_a impl_a refl
