-- ===== src/Parameter/Registered.antt =====
-- What a node has when its parameter services are made (src/rcllite/parameter.cpp), and when that
-- fails.
use rcllite.Prelude.{
  ℕ, ◌+◌, ◌%◌, ◌^◌, ◌≡◌, refl, arith, false, List, [], ◌∷◌, ◌++◌, append_assoc, Bytes, text, Result,
  ok, err, Error, internal_error, length, length-append, ltb, if◌then◌else◌,
}
use rcllite.Dds.Qos.{parameters_qos, parameter_events_qos}
use rcllite.Dds.Calls.{Trace, Io, Proc, io_then, on_trace, Cyclone, value, failed}
use rcllite.Dds.Entities.{Participant, make_reader, make_writer}
use rcllite.Names.Maps.{
  ros_to_dds_topic_name, ros_to_dds_request_topic_name, ros_to_dds_reply_topic_name, validate_fqn,
}
use rcllite.Node.{Node, add_entity}
use rcllite.Node.Endpoints.{make_publisher, make_service}
use rcllite.Parameter.Services.{
  MessageNames, ParameterImpl, add_service, add_services, make_parameter_impl,
}

-- The entities of a node with `k` more of them behind.
pub record Gained (k : ℕ) (n n' : Node) : Type 0 where
  pub ids : List ℕ
  pub count : length ids ≡ k
  pub behind : n'.entities ≡ n.entities ++ ids
  pub epoch : n'.entity_epoch ≡ (n.entity_epoch + k) % 2 ^ 64

-- What is ensured of the node where nothing is thrown.
record Leaves {T A : Type 0} (P : T → Type 0) (out : (Trace × T) × Result A) : Type 0 where
  holds : (a : A) → out.1 ≡ ok a → P out.0.1

Leaves-then :
    {T A B : Type 0} {Q P : T → Type 0} (out : (Trace × T) × Result A) {f : A → Proc (Trace × T) B}
    → Leaves Q out
    → ((a : A) (s : Trace × T) → Q s.1 → Leaves P (f a s))
    → Leaves P (io_then out f)
Leaves-then (s, ok a) q h = h a s (q.holds a refl)
Leaves-then (s, err e) q h = record { holds = λ b p. cc }

Leaves-on_trace :
    {T A : Type 0} {Q : T → Type 0} (m : Io A) (trace : Trace) (t : T)
    → Q t
    → Leaves Q (on_trace m (trace, t))
Leaves-on_trace m trace t q = record { holds = λ a e. q }

Gained-next : (k : ℕ) (n n' n'' : Node) → Gained k n n' → Gained 1 n' n'' → Gained (k + 1) n n''
Gained-next k n n' n'' g h = record {
  ids = g.ids ++ h.ids;
  count = omega (arith, length-append g.ids h.ids, g.count, h.count);
  behind = rw (h.behind, g.behind) (append_assoc n.entities g.ids h.ids);
  epoch = omega (arith, g.epoch, h.epoch);
}

module _ (cyclone : Cyclone) (ppant : Participant) where
  add_service-Gained :
      (types : Bytes × Bytes) (name : Bytes) (trace : Trace) (n : Node)
      → Leaves (Gained 1 n) (add_service cyclone ppant types name (trace, n))
  unfolding add_service add_entity
  add_service-Gained types name trace n =
      Leaves-then {Q = λ n'. n' ≡ n}
        (on_trace (make_service cyclone ppant types.0 types.1 name parameters_qos) (trace, n))
        (Leaves-on_trace (make_service cyclone ppant types.0 types.1 name parameters_qos) trace n
          refl)
        (λ srv s e. record {
          holds = λ u p. record {
            ids = srv.request_reader.rc ∷ [];
            count = omega arith;
            behind = rw e;
            epoch = rw e;
          };
        })

  one_more :
      (k : ℕ) (types : Bytes × Bytes) (name : Bytes) (n : Node) (s : Trace × Node)
      → Gained k n s.1
      → Leaves (Gained (k + 1) n) (add_service cyclone ppant types name s)
  one_more k types name n (trace, n') g = record {
    holds = λ u e. Gained-next k n n' _ g ((add_service-Gained types name trace n').holds u e);
  }

  add_services-Gained :
      (names : MessageNames) (prefix : Bytes) (trace : Trace) (n : Node)
      → Leaves (Gained 6 n) (add_services cyclone ppant names prefix (trace, n))
  unfolding add_services
  add_services-Gained names prefix trace n =
      Leaves-then _ (add_service-Gained names.describe_parameters _ trace n) (λ a s1 g1.
        Leaves-then _ (one_more 1 names.get_parameter_types _ n s1 g1) (λ b s2 g2.
          Leaves-then _ (one_more 2 names.get_parameters _ n s2 g2) (λ c s3 g3.
            Leaves-then _ (one_more 3 names.list_parameters _ n s3 g3) (λ d s4 g4.
              Leaves-then _ (one_more 4 names.set_parameters _ n s4 g4)
                (λ e s5 g5. one_more 5 names.set_parameters_atomically _ n s5 g5)))))

  made :
      (names : MessageNames) (trace : Trace) (n : Node)
      → Leaves (Gained 6 n) (make_parameter_impl cyclone ppant names (trace, n))
  unfolding make_parameter_impl
  made names trace n =
      Leaves-then {Q = λ n'. n' ≡ n}
        (on_trace
          (make_publisher cyclone ppant names.event (text "/parameter_events") parameter_events_qos
            false)
          (trace, n))
        (Leaves-on_trace
          (make_publisher cyclone ppant names.event (text "/parameter_events") parameter_events_qos
            false)
          trace n refl)
        (λ p s e. rw e (
          Leaves-then _ (add_services-Gained names _ s.0 n) (λ u t g. record { holds = λ a q. g })))

  -- When the parameter support of a node is made, the node has six more entities behind those it
  -- had, and its epoch is six further, up to multiples of 2 ^ 64.
  pub make_parameter_impl-entities :
      (names : MessageNames) (trace : Trace) (n : Node) (impl : ParameterImpl)
      → (make_parameter_impl cyclone ppant names (trace, n)).1 ≡ ok impl
      → Gained 6 n (make_parameter_impl cyclone ppant names (trace, n)).0.1
  make_parameter_impl-entities names trace n impl e = (made names trace n).holds impl e

-- CycloneDDS that has room for the publisher and the first service only.
abbrev full_after_one : Cyclone
full_after_one trace c = if ltb (length trace) 16 then value 7 else failed

abbrev plain_node : Node
plain_node = record {
  name = text "a";
  ns = text "/";
  fq_name = text "/a";
  entities = [];
  entity_epoch = 0;
  guard = false;
}

abbrev some_participant : Participant
some_participant = record { handle = 1; publisher = 2; subscriber = 3 }

abbrev no_names : MessageNames
no_names = record {
  event = [];
  describe_parameters = ([], []);
  get_parameter_types = ([], []);
  get_parameters = ([], []);
  list_parameters = ([], []);
  set_parameters = ([], []);
  set_parameters_atomically = ([], []);
}

full_run :
    ((make_parameter_impl full_after_one some_participant no_names ([], plain_node)).1
      ≡ err (internal_error "failed to create sertype for {}" ([] ∷ [])))
    × ((make_parameter_impl full_after_one some_participant no_names ([], plain_node)).0.1.entities
        ≡ 7 ∷ [])
unfolding make_parameter_impl add_services add_service make_publisher make_service make_reader
    make_writer add_entity ros_to_dds_topic_name ros_to_dds_request_topic_name
    ros_to_dds_reply_topic_name validate_fqn
full_run = (refl, refl)

-- It is not so that a constructor that throws leaves the entities of the node as they were.
pub make_parameter_impl_dangles : ¬ (
    (cyclone : Cyclone) (ppant : Participant) (names : MessageNames) (trace : Trace) (n : Node)
    (e : Error)
    → (make_parameter_impl cyclone ppant names (trace, n)).1 ≡ err e
    → (make_parameter_impl cyclone ppant names (trace, n)).0.1.entities ≡ n.entities)
make_parameter_impl_dangles h =
    one_is_left (h full_after_one some_participant no_names [] plain_node _ refused)
  where
    refused :
        (make_parameter_impl full_after_one some_participant no_names ([], plain_node)).1
        ≡ err (internal_error "failed to create sertype for {}" ([] ∷ []))
    refused = full_run.0

    one_is_left :
        (make_parameter_impl full_after_one some_participant no_names ([], plain_node)).0.1.entities
          ≡ []
        → ⊥
    one_is_left e = ground (arith, e, full_run.1)
