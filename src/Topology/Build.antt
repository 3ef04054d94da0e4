-- ===== src/Topology/Build.antt =====
-- The constructor of GraphExecutor::Impl in src/rcllite/graph_executor.cpp: it builds nodes, their
-- parameters and their endpoints from JSON. The entity of a subscription is named by its read
-- condition. What is destroyed when the constructor throws is not here.
use rcllite.Prelude.{
  Bool, not, ◌||◌, Option, none, some, [], ◌∷◌, ◌++◌, Bytes, text, Result, ok, err, Error,
  invalid_arguments, if◌then◌else◌, length,
}
use rcllite.Prelude.Outcome
use rcllite.Names.Maps.{dds_type_name, expand_topic_name, ros_to_dds_topic_name}
use rcllite.Dds.Qos.{Qos, default_qos}
use rcllite.Dds.Calls.{Io, ◌>>=◌, return, throw, lift}
use rcllite.Dds.Entities.{make_writer, make_reader}
use rcllite.Node.{add_entity}
use rcllite.Node.Construct.{NodeOwner, construct_node}
use rcllite.Parameter.Core.{declare}
use rcllite.Parameter.Services.{ParameterImpl, params}
use rcllite.Executor.Core.{new_executor, add_node}
use rcllite.Topology.Settings.{parse_qos, parameter_value}
use rcllite.Topology.Payload.{payload_from_hex, default_payload}
use rcllite.Topology.State.{GraphExecutor, NodeEntry, for_each, view_at}
use rcllite.Topology.Host.{Host, on_entry, new_entry, with_publisher}

abbrev needs_topic : Bytes → Error
needs_topic what = invalid_arguments "{}: needs 'topic' and 'type'" (what ∷ [])

module _ {Json : Type 0} (host : Host Json) where
  open host use {json, cyclone}

  -- Node::declare_parameter, with what it makes when it is first called.
  unfoldable pub declare_parameter : Bytes → NodeEntry → Bytes × Json → Io NodeEntry
  declare_parameter fq entry (name, value) = do
    v ← lift (parameter_value json fq name value)
    (impl, e) ←
        on_entry
          (λ n trace. params cyclone entry.owner.ppant host.message_names entry.params (trace, n))
          entry
    u ← lift (declare host.world name v impl.core).1
    return (record e {
      params = some (record impl { core = (declare host.world name v impl.core).0 });
    })

  -- The hexadecimal payload of a publisher, or the default.
  unfoldable pub payload_of : Json → Bytes → Result Bytes
  unfolding payload_from_hex default_payload
  payload_of spec what =
      if json.contains spec (text "payload_hex")
      then Outcome.◌>>=◌ (json.at spec (text "payload_hex"))
          (λ v. Outcome.◌>>=◌ (json.get_string v) (λ hex. payload_from_hex hex what))
      else ok default_payload

  -- The DDS type and the topic of an endpoint, by their keys.
  unfoldable pub dds_type_of : Json → Io Bytes
  dds_type_of spec = do
    v ← lift (json.at spec (text "type"))
    type ← lift (json.get_string v)
    lift (dds_type_name type)

  unfoldable pub topic_of : Json → Bytes → Io Bytes
  topic_of spec namespace_ = do
    v ← lift (json.at spec (text "topic"))
    topic ← lift (json.get_string v)
    lift (expand_topic_name topic namespace_)

  unfoldable pub qos_of : Json → Io Qos
  unfolding parse_qos
  qos_of spec = do
    qos ← lift (json.value_json spec (text "qos") json.object)
    lift (parse_qos json qos default_qos)

  abbrev pub malformed : Json → Bool
  malformed spec =
      not (json.is_object spec)
      || not (json.contains spec (text "topic"))
      || not (json.contains spec (text "type"))

  unfoldable pub build_publisher : NodeEntry → Json → Io NodeEntry
  unfolding payload_of dds_type_of topic_of qos_of
  build_publisher entry spec =
      let what = text "node " ++ entry.fq_name ++ text " publisher" in
      if malformed spec then throw (needs_topic what) else do
        type ← dds_type_of spec
        ros_topic ← topic_of spec entry.namespace_
        payload ← lift (payload_of spec what)
        rate_hz ← lift (json.value_double spec (text "rate_hz") 0)
        dds_topic ← lift (ros_to_dds_topic_name ros_topic)
        qos ← qos_of spec
        w ←
            make_writer cyclone entry.owner.ppant.handle entry.owner.ppant.publisher dds_topic type
              qos
        return (with_publisher entry ros_topic type payload rate_hz w)

  unfoldable pub build_subscription : NodeEntry → Json → Io NodeEntry
  unfolding dds_type_of topic_of qos_of
  build_subscription entry spec =
      let what = text "node " ++ entry.fq_name ++ text " subscription" in
      if malformed spec then throw (needs_topic what) else do
        type ← dds_type_of spec
        ros_topic ← topic_of spec entry.namespace_
        dds_topic ← lift (ros_to_dds_topic_name ros_topic)
        qos ← qos_of spec
        r ←
            make_reader cyclone entry.owner.ppant.handle entry.owner.ppant.subscriber dds_topic type
              qos
        return (record entry {
          owner = record entry.owner { node = add_entity r.rc entry.owner.node };
          subscriptions =
              entry.subscriptions
              ++ (record { topic = ros_topic; type = type; reader = r; received = 0 } ∷ []);
        })

  -- The node of an entry: of a registered class, or a plain one.
  unfoldable pub owner_of : Json → Bytes → Bytes → Io (NodeOwner × Option ParameterImpl)
  unfolding construct_node
  owner_of spec name namespace_ =
      if json.contains spec (text "class")
      then (do
        v ← lift (json.at spec (text "class"))
        cls ← lift (json.get_string v)
        made ← host.create_by_name cls name namespace_
        elim made [
          | some n ↦ return n
          | none ↦ throw (
              invalid_arguments
                "node {}/{}: class '{}' is not registered; link its library (alwayslink = 1) into the hosting binary"
                (namespace_ ∷ name ∷ cls ∷ []))
        ])
      else do
        n ←
            construct_node cyclone host.bits host.info_type host.info_message host.env host.context
              name namespace_
        return (n, none)

  -- `if (spec.contains(key)) for (item : spec.at(key)) ...`
  unfoldable pub for_each_of :
      Bytes → (NodeEntry → Json → Io NodeEntry) → Json → NodeEntry → Io NodeEntry
  for_each_of key f spec entry =
      if json.contains spec key
      then (do v ← lift (json.at spec key); for_each f (json.elements v) entry)
      else return entry

  unfoldable pub declare_parameters : Json → NodeEntry → Io NodeEntry
  unfolding declare_parameter
  declare_parameters spec entry =
      if json.contains spec (text "parameters")
      then (do
        v ← lift (json.at spec (text "parameters"))
        (if json.is_object v
            then for_each (declare_parameter entry.fq_name) (json.members v) entry
            else throw
                (invalid_arguments "node {}: 'parameters' must be an object" (entry.fq_name ∷ []))))
      else return entry

  unfoldable pub build_node : GraphExecutor → Json → Io GraphExecutor
  unfolding owner_of declare_parameters for_each_of build_publisher build_subscription
  build_node g spec =
      if not (json.is_object spec) || not (json.contains spec (text "name"))
      then throw (invalid_arguments "every node needs a 'name'" [])
      else do
        namespace_ ← lift (json.value_string spec (text "namespace") (text "/"))
        v ← lift (json.at spec (text "name"))
        name ← lift (json.get_string v)
        (owner, made) ← owner_of spec name namespace_
        let executor = add_node (view_at g.nodes owner) host.attaches (length g.nodes) g.executor
        e1 ← declare_parameters spec (new_entry (owner, made) namespace_)
        e2 ← for_each_of (text "publishers") build_publisher spec e1
        e3 ← for_each_of (text "subscriptions") build_subscription spec e2
        return (record { executor = executor; nodes = g.nodes ++ (e3 ∷ []) })

  -- What the document must be, before its nodes are built.
  unfoldable pub topology_nodes : Json → Io Json
  topology_nodes doc =
      if not (json.is_object doc) || not (json.contains doc (text "nodes"))
      then throw (invalid_arguments "topology must be an object with a 'nodes' array" [])
      else do
        nodes ← lift (json.at doc (text "nodes"))
        (if not (json.is_array nodes)
            then throw (invalid_arguments "topology must be an object with a 'nodes' array" [])
            else if json.is_empty nodes
            then throw (invalid_arguments "topology has no nodes" [])
            else return nodes)

  -- What JsonFromDoc throws becomes an Error.
  abbrev pub parsed : Result Json → Result Json
  parsed (ok doc) = ok doc
  parsed (err e) = err (invalid_arguments "topology is not valid JSON: {}" [])

  -- The constructor of Impl.
  unfoldable pub build : Bytes → Io GraphExecutor
  unfolding topology_nodes build_node
  build json_topology = do
    doc ← lift (parsed (json.from_doc json_topology))
    nodes ← topology_nodes doc
    for_each build_node (json.elements nodes) (record { executor = new_executor; nodes = [] })
