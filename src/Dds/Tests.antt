-- ===== src/Dds/Tests.antt =====
-- Runs of src/rcllite/dds, and its theorems at concrete inputs.
use rcllite.Prelude.{◌≡◌, refl, arith, true, false, none, some, [], text, length}
use rcllite.Dds.Qos.{default_qos}
use rcllite.Dds.Calls.{Call, Trace, Cyclone, create_writer, create_readcondition, value, failed}
use rcllite.Dds.Entities.{make_writer, make_reader, make_participant}
use rcllite.Dds.Alive.{
  answered_ok, is_condition, endpoints, topics, reader_scope, make_reader_leaks, live_qos,
  constructors-live_qos,
}
use rcllite.Dds.Config.{Environment, Context, env_domain_id, digits_value, enclave_user_data}
use rcllite.Graph.Poll.{parse_enclave}

domain : env_domain_id (some (text " 42x")) ≡ 42
unfolding env_domain_id digits_value
domain = refl

domain_out_of_range : env_domain_id (some (text "233")) ≡ 0
unfolding env_domain_id digits_value
domain_out_of_range = refl

-- A semicolon in a name cuts it.
cut_name : parse_enclave (enclave_user_data (text "/a;b")) ≡ text "/a"
unfolding parse_enclave enclave_user_data
cut_name = refl

-- A CycloneDDS in which no writer can be made.
abbrev no_writers : Cyclone
no_writers trace (create_writer p t q) = failed
no_writers trace c = value 5

abbrev no_variables : Environment
no_variables = record { ros_domain_id = none; ros_localhost_only = none; cyclonedds_uri = none }

abbrev default_context : Context
default_context = record { domain_id = 0; localhost_only = false; config_xml = [] }

constructors-live_qos_example :
    (live_qos no_writers (make_writer no_writers 1 2 (text "rt/t") (text "T") default_qos []).0
      ≡ live_qos no_writers [])
    × (live_qos no_writers (make_reader no_writers 1 2 (text "rt/t") (text "T") default_qos []).0
        ≡ live_qos no_writers [])
    × (live_qos no_writers
          (make_participant no_writers no_variables default_context 1 (text "rt/t") []).0
        ≡ live_qos no_writers [])
constructors-live_qos_example =
    constructors-live_qos no_writers 1 2 (text "rt/t") (text "T") default_qos no_variables
      default_context []

-- A CycloneDDS in which no read condition can be made.
abbrev no_conditions : Cyclone
no_conditions trace (create_readcondition rd) = failed
no_conditions trace c = value 5

others_made :
    (trace : Trace) (c : Call) → is_condition c ≡ false → answered_ok (no_conditions trace c) ≡ true
others_made trace c h = ground arith

make_reader_leaks_example :
    (length (
        endpoints no_conditions
          (reader_scope (make_reader no_conditions 1 2 (text "rt/t") (text "T") default_qos [])))
      ≡ 1)
    × (length (
          topics no_conditions
            (reader_scope (make_reader no_conditions 1 2 (text "rt/t") (text "T") default_qos [])))
        ≡ 1)
unfolding endpoints topics
make_reader_leaks_example =
    make_reader_leaks no_conditions others_made (λ trace rd. refl) 1 2 (text "rt/t") (text "T")
      default_qos []
