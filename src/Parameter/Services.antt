-- ===== src/Parameter/Services.antt =====
-- The constructor of ParameterCore::Impl in src/rcllite/parameter.cpp, and Node::params that calls it
-- when it is first needed: the publisher of the events and the six services of a node.
use rcllite.Prelude.{false, Option, none, some, [], ◌++◌, Bytes, text}
use rcllite.Dds.Qos.{parameter_events_qos, parameters_qos}
use rcllite.Dds.Calls.{Trace, Proc, Cyclone, ◌>>=◌, return, on_trace, changes}
use rcllite.Dds.Entities.{Participant}
use rcllite.Node.{Node, add_entity}
use rcllite.Node.Endpoints.{Publisher, make_publisher, make_service}
use rcllite.Parameter.Core.{ParameterCore}

-- The DDS names of the messages, which are generated: of the event, and of the request and the
-- response of each service.
pub record MessageNames : Type 0 where
  pub event : Bytes
  pub describe_parameters : Bytes × Bytes
  pub get_parameter_types : Bytes × Bytes
  pub get_parameters : Bytes × Bytes
  pub list_parameters : Bytes × Bytes
  pub set_parameters : Bytes × Bytes
  pub set_parameters_atomically : Bytes × Bytes

-- The store, and the publisher of its events.
pub record ParameterImpl : Type 0 where
  pub core : ParameterCore
  pub events_pub : Publisher

module _ (cyclone : Cyclone) (ppant : Participant) where
  -- One of the six: node.add_entity(std::make_shared<Service<...>>(...)).
  unfoldable pub add_service : Bytes × Bytes → Bytes → Proc (Trace × Node) (Unit {0})
  add_service (request, response) name = do
    srv ← on_trace (make_service cyclone ppant request response name parameters_qos)
    changes (add_entity srv.request_reader.rc)

  unfoldable pub add_services : MessageNames → Bytes → Proc (Trace × Node) (Unit {0})
  unfolding add_service
  add_services names prefix = do
    a ← add_service names.describe_parameters (prefix ++ text "describe_parameters")
    b ← add_service names.get_parameter_types (prefix ++ text "get_parameter_types")
    c ← add_service names.get_parameters (prefix ++ text "get_parameters")
    d ← add_service names.list_parameters (prefix ++ text "list_parameters")
    e ← add_service names.set_parameters (prefix ++ text "set_parameters")
    add_service names.set_parameters_atomically (prefix ++ text "set_parameters_atomically")

  unfoldable pub make_parameter_impl : MessageNames → Proc (Trace × Node) ParameterImpl
  unfolding add_services
  make_parameter_impl names (trace, n) =
      (do
        p ← on_trace (
            make_publisher cyclone ppant names.event (text "/parameter_events") parameter_events_qos
              false)
        u ← add_services names (n.fq_name ++ text "/")
        return (record {
          core = record { node_name = n.fq_name; values = []; events = [] };
          events_pub = p;
        }))
        (trace, n)

  -- Node::params.
  unfoldable pub params : MessageNames → Option ParameterImpl → Proc (Trace × Node) ParameterImpl
  params names (some impl) = return impl
  params names none = make_parameter_impl names
