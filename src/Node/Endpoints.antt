-- ===== src/Node/Endpoints.antt =====
-- What a node is asked for: the constructors of src/rcllite/publisher.hpp, of
-- src/rcllite/subscription.hpp and of the two classes of src/rcllite/service.hpp, and the members of
-- src/rcllite/node_impl.hpp that call them. An entity that is added to a node is named by its read
-- condition. `type` stands for MessageType<...>::dds_name(), which generated code gives.
use rcllite.Prelude.{ℕ, Bool, false, if◌then◌else◌, [], ◌∷◌, Bytes, internal_error, not, ◌==◌}
use rcllite.Names.Maps.{
  expand_topic_name, ros_to_dds_topic_name, ros_to_dds_request_topic_name,
  ros_to_dds_reply_topic_name,
}
use rcllite.Message.{Message}
use rcllite.Cdr.Writer.{payload, new_writer}
use rcllite.Dds.Qos.{Qos}
use rcllite.Dds.Calls.{Io, Cyclone, ◌>>=◌, return, throw, lift}
use rcllite.Dds.Entities.{
  Participant, Writer, Reader, make_writer, make_reader, write, writer_count,
}
use rcllite.Node.{Node, add_entity}

pub record Publisher : Type 0 where
  pub ros_topic : Bytes
  pub writer : Writer

pub record Subscription : Type 0 where
  pub ros_topic : Bytes
  pub reader : Reader

pub record Service : Type 0 where
  pub ros_service : Bytes
  pub request_reader : Reader
  pub reply_writer : Writer

pub record ClientEnds : Type 0 where
  pub ros_service : Bytes
  pub request_writer : Writer
  pub response_reader : Reader

module _ (cyclone : Cyclone) (ppant : Participant) where
  unfoldable pub make_publisher : Bytes → Bytes → Qos → Bool → Io Publisher
  make_publisher type ros_topic qos raw_dds_topic = do
    topic ← (if raw_dds_topic then return ros_topic else lift (ros_to_dds_topic_name ros_topic))
    w ← make_writer cyclone ppant.handle ppant.publisher topic type qos
    return (record { ros_topic = ros_topic; writer = w })

  unfoldable pub make_subscription : Bytes → Bytes → Qos → Io Subscription
  make_subscription type ros_topic qos = do
    topic ← lift (ros_to_dds_topic_name ros_topic)
    r ← make_reader cyclone ppant.handle ppant.subscriber topic type qos
    return (record { ros_topic = ros_topic; reader = r })

  unfoldable pub make_service : Bytes → Bytes → Bytes → Qos → Io Service
  make_service request response ros_service qos = do
    asked ← lift (ros_to_dds_request_topic_name ros_service)
    r ← make_reader cyclone ppant.handle ppant.subscriber asked request qos
    told ← lift (ros_to_dds_reply_topic_name ros_service)
    w ← make_writer cyclone ppant.handle ppant.publisher told response qos
    return (record { ros_service = ros_service; request_reader = r; reply_writer = w })

  unfoldable pub make_client : Bytes → Bytes → Bytes → Qos → Io ClientEnds
  make_client request response ros_service qos = do
    asked ← lift (ros_to_dds_request_topic_name ros_service)
    w ← make_writer cyclone ppant.handle ppant.publisher asked request qos
    told ← lift (ros_to_dds_reply_topic_name ros_service)
    r ← make_reader cyclone ppant.handle ppant.subscriber told response qos
    return (record { ros_service = ros_service; request_writer = w; response_reader = r })

  unfoldable pub create_publisher : Bytes → Bytes → Qos → Node → Io Publisher
  unfolding make_publisher
  create_publisher type topic qos n = do
    fqn ← lift (expand_topic_name topic n.ns)
    make_publisher type fqn qos false

  unfoldable pub create_subscription : Bytes → Bytes → Qos → Node → Io (Subscription × Node)
  unfolding make_subscription
  create_subscription type topic qos n = do
    fqn ← lift (expand_topic_name topic n.ns)
    sub ← make_subscription type fqn qos
    return (sub, add_entity sub.reader.rc n)

  unfoldable pub create_service : Bytes → Bytes → Bytes → Qos → Node → Io (Service × Node)
  unfolding make_service
  create_service request response name qos n = do
    fqn ← lift (expand_topic_name name n.ns)
    srv ← make_service request response fqn qos
    return (srv, add_entity srv.request_reader.rc n)

  unfoldable pub create_client : Bytes → Bytes → Bytes → Qos → Node → Io (ClientEnds × Node)
  unfolding make_client
  create_client request response name qos n = do
    fqn ← lift (expand_topic_name name n.ns)
    cli ← make_client request response fqn qos
    return (cli, add_entity cli.response_reader.rc n)

-- Publisher::publish. `bits` is the width of ddsrt_iov_len_t.
unfoldable pub publish : {A : Type 0} → Cyclone → ℕ → Message A → A → Publisher → Io (Unit {0})
publish cyclone bits message msg p = do
  sent ← write cyclone bits p.writer (payload (message.serialize msg new_writer))
  if sent then return tt else throw (internal_error "publish failed on {}" (p.ros_topic ∷ []))

-- Client::service_is_ready
unfoldable pub service_is_ready : Cyclone → ClientEnds → Io Bool
service_is_ready cyclone c = do
  count ← writer_count cyclone c.response_reader
  return (not (count == 0))
