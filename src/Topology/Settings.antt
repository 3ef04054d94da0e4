-- ===== src/Topology/Settings.antt =====
-- parse_qos of src/rcllite/graph_executor.cpp, and the value that its declare_parameter declares.
use rcllite.Prelude.{
  [], ◌∷◌, Bytes, text, same_text, Result, ok, err, ◌>>=◌, invalid_arguments, if◌then◌else◌,
}
use rcllite.Dds.Qos.{Qos, set_best_effort, set_transient_local, keep_last}
use rcllite.Parameter.Value.{
  ParameterValue, bool_to_value, integer_to_value, double_to_value, string_to_value,
}
use rcllite.Topology.JsonLib.{JsonLib}

module _ {Json : Type 0} (json : JsonLib Json) where
  -- The last test of parse_qos.
  unfoldable pub with_depth : Json → Qos → Result Qos
  with_depth qos base =
      if json.contains qos (text "depth")
      then (do
        value ← json.at qos (text "depth")
        depth ← json.get_size value
        ok (keep_last depth base))
      else ok base

  -- The tests of an object.
  unfoldable pub parse_settings : Json → Qos → Result Qos
  unfolding with_depth
  parse_settings qos base = do
    reliability ← json.value_string qos (text "reliability") (text "reliable")
    durability ← json.value_string qos (text "durability") (text "volatile")
    with_depth qos (
        (if same_text durability (text "transient_local") then set_transient_local else (λ q. q))
          ((if same_text reliability (text "best_effort") then set_best_effort else (λ q. q)) base))

  unfoldable pub parse_qos : Json → Qos → Result Qos
  unfolding parse_settings
  parse_qos qos base = if json.is_object qos then parse_settings qos base else ok base

  -- The argument of Node::declare_parameter, by the kind of the JSON value.
  unfoldable pub parameter_value : Bytes → Bytes → Json → Result ParameterValue
  parameter_value fq name value =
      if json.is_boolean value
      then (do v ← json.get_bool value; ok (bool_to_value v))
      else if json.is_number_integer value
      then (do v ← json.get_integer value; ok (integer_to_value v))
      else if json.is_number_float value
      then (do v ← json.get_double value; ok (double_to_value v))
      else if json.is_string value
      then (do v ← json.get_string value; ok (string_to_value v))
      else err (
          invalid_arguments "node {}: parameter '{}' must be bool/int/double/string"
            (fq ∷ name ∷ []))
