-- ===== src/Names/Tests.antt =====
-- Runs of src/rcllite/names.cpp, and the theorems at concrete inputs.
use rcllite.Prelude.{◌≡◌, refl, Bytes, text, ok, err, ◌↔◌}
use rcllite.Names.Search.{starts_with}
use rcllite.Names.Maps.{
  validate_fqn, empty_token, ros_to_dds_topic_name, ros_to_dds_request_topic_name,
}
use rcllite.Names.Valid.{Qualified, validate_fqn_iff}
use rcllite.Names.Apart.{Channel, request, dds_name, dds_name_injective}

validate_fqn_iff_example : (validate_fqn (text "/a/b") ≡ ok tt) ↔ Qualified (text "/a/b")
validate_fqn_iff_example = validate_fqn_iff (text "/a/b")

empty_token_run : validate_fqn (text "/a//b") ≡ err (empty_token (text "/a//b"))
unfolding validate_fqn starts_with
empty_token_run = refl

-- Characters are not checked.
any_character : ros_to_dds_topic_name (text "/a b!") ≡ ok (text "rt/a b!")
unfolding ros_to_dds_topic_name starts_with
any_character = refl

request_name : dds_name request (text "/add") ≡ ok (text "rq/addRequest")
unfolding dds_name ros_to_dds_request_topic_name starts_with
request_name = refl

dds_name_injective_example :
    (◌≡◌ {A = Channel} request request) × (◌≡◌ {A = Bytes} (text "/add") (text "/add"))
dds_name_injective_example =
    dds_name_injective request request (text "/add") (text "/add") (text "rq/addRequest")
      request_name request_name
