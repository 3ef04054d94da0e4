-- ===== src/Lib.antt =====
-- rcllite is a small ROS 2 client library in C++ on top of CycloneDDS. This is a model of its parts
-- and of what makes them correct. Paths are from the repository's root.
--
-- A node talks over DDS topics. names.cpp turns ROS names into DDS names. A message is serialized
-- by the code that tools/msg_codegen.py generates for it, on top of the CDR writer and reader of
-- cdr.hpp and the sequence functions of msg_traits.hpp. The bytes go to CycloneDDS and come from it
-- as raw samples (dds/raw_serdata.cpp, dds/entities.cpp). A service (service.hpp) is two topics: a
-- request carries the client's id and a sequence number in front of the message, the server echoes
-- both in front of its response, and the client looks the number up in its map of pending requests.
-- A node's parameters (parameter.cpp) are a map with six services on top of it and a topic on which
-- changes are published. The graph monitor (graph.cpp) listens to discovery and prints who talks to
-- whom as JSON. A graph executor (graph_executor.cpp) builds nodes from a JSON document, publishes
-- raw bytes on them and counts samples. The Python bindings (src/ffi/rcllite_ffi.cpp) keep nodes,
-- publishers and subscriptions under numbers. examples/graph/abc_graph.cpp is a pipeline of three
-- nodes that checks itself when it is stopped.
--
-- Files, whose sources are under src/rcllite unless said otherwise:
--   Prelude    tests, lists, texts, results and ordered maps that the others share. An exception
--              is the `err` of a Result, with the message's format and its arguments.
--   Cdr        cdr.hpp and the sequences of msg_traits.hpp. A buffer is a list of bytes. Writer
--              and Reader have one function per member, with the writer or the reader passed
--              along; a number stands by its bit pattern, the length of a string or of a sequence
--              wraps at 2 ^ 32 as its cast does.
--   Message    a message type, as the record of its two generated functions. The generated code is
--              an argument; what is asked of it is that it reads back what it wrote.
--   Names      names.cpp, function by function; std::string searches are in Names.Search.
--   Dds        qos.hpp, dds/raw_serdata.cpp, dds/entities.cpp and entities.hpp, subscription.hpp.
--              In Calls, CycloneDDS is a function from the calls so far and the next one to its
--              answer; a computation passes the calls along and may throw (Io, and Proc where an
--              object changes as well). Entities has the constructors, destructors and members of
--              participant, writer, reader and guard condition, Alive which entities are left
--              alive, Keeps what a call leaves as it was. Serdata has what samples are made of and
--              from, RawOps the tables of functions that CycloneDDS calls for samples and their
--              types, Fragments the pieces that a sample arrives in. The take has what CycloneDDS
--              hands over as an argument.
--   Node       node.cpp, node.hpp, node_impl.hpp and publisher.hpp: the names of a node and its
--              entities, the constructor (Construct) with the announcement to the ROS graph, the
--              members that make publishers, subscriptions, services and clients (Endpoints), the
--              loops that wait for subscribers (Wait). Delivery joins a publisher and a
--              subscription: calls of publish, the pieces of the samples, the take, the dispatch.
--   Service    service.hpp. Service.Server and Service.Client have the bodies of the two dispatch
--              loops, send_request and the end of call(). The DDS writer is a function of the
--              payload, the callbacks and promises are numbers that events name. Race is call() in
--              one thread and dispatch in another, as a step relation.
--   Parameter  parameter.hpp, parameter.cpp and node_params.hpp: values (Value), the store (Core),
--              the handlers (Handlers, Listing), the constructor that makes the services
--              (Services). The clock and the writer of /parameter_events are a record of functions.
--   Json       json_writer.hpp.
--   Graph      graph.cpp. State is the monitor, Poll the functions that take samples and run(),
--              Resolve finds the node of an endpoint, Topics and Snapshot are the two halves of
--              snapshot_json. What a take gives is an argument. Construct has the constructor and
--              the destructor with their DDS calls; Appears joins a node's constructor and the
--              monitor that hears of it.
--   Executor   executor.cpp: which conditions are attached to the waitset, what a round of
--              wait_and_process dispatches (Core), and the loops around it (Spin). The view of a
--              node, the answers of the waitset and the clock are arguments. Construct has the
--              constructor and the destructor, Threads is spin in one thread and cancel in another,
--              as a step relation.
--   Topology   graph_executor.cpp. The functions of vila::Json are the record JsonLib, and
--              Host holds all that the constructor is linked to and runs on. Payload and Settings
--              read a publisher's bytes and QoS, Build has the constructor, Publish the publishing threads
--              as a step relation (their rounds come in any order), Status what it reports as JSON;
--              Reader is a reader of that JSON, for the proofs only. Spin passes on to the executor.
--   Ffi        src/ffi/rcllite_ffi.cpp: the registry (Registry, Handles), the making of endpoints
--              (Opened, Endpoints), graph executors (Graphs), and spinning and cancelling by handle
--              (Spinning). Race has the destroy of a handle beside members that use it, as step
--              relations.
--   Examples   examples/graph/abc_graph.cpp (Pipeline): its three nodes as a step relation, and the
--              verdict of its main. A sample is lost before its reader is matched; after that it
--              waits in order, and may be overwritten when ten newer ones wait behind it.
--
-- A file named for what it proves (Counts, Built, WaitLaws, Announced, Cancelled, ...) has the lemmas
-- of the file of definitions beside it.
--
-- Bounds: sequence numbers of requests and counters of samples are 64 bits and wrap; the
-- statements on fresh numbers exclude that. The lengths of strings and sequences are 32 bits. The
-- loop of Reader::take runs on fuel, one round for every 16 samples and one more; that is enough
-- for a reader that hands out its oldest samples. A loop that waits with a timeout has as many
-- polls as the timeout has milliseconds, and one more. The loops of the executor have fuel; a spin
-- that is cancelled after k rounds ends with k + 2. The reader of the status has as many rounds as
-- its text has characters, and one more. The counter of the pipeline is followed for 2 ^ 63 - 1
-- rounds. Printing a number n in decimal has n + 1 rounds, more than its digits. A wait reports at
-- most 64 of the conditions that are triggered. A Gid has 24 bytes, as in the interface
-- definitions of humble that MODULE.bazel pins.
--
-- Not modelled: locks (each operation is one step under its lock), threads but for Service.Race,
-- Topology.Publish, Executor.Threads, Ffi.Race and Examples.Pipeline, failing allocations,
-- reference counts of samples, what is destroyed when the constructor of GraphExecutor throws,
-- logging, the generated message code, CycloneDDS, vila and the other examples.
pub mod Prelude
pub mod Cdr
pub mod Message
pub mod Names
pub mod Service
pub mod Parameter
pub mod Json
pub mod Graph
pub mod Dds
pub mod Node
pub mod Ffi
pub mod Executor
pub mod Topology
pub mod Examples
