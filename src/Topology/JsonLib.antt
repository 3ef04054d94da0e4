-- ===== src/Topology/JsonLib.antt =====
-- vila::Json as src/rcllite/graph_executor.cpp uses it. vila is not part of the repository, so its
-- members are an argument of everything that uses them; what one of them throws is its error.
-- Numbers with a sign and floating numbers stand by their bit patterns.
use rcllite.Prelude.{ℕ, Bool, List, Bytes, Result}

pub record JsonLib (Json : Type 0) : Type 0 where
  -- vila::JsonFromDoc
  pub from_doc : Bytes → Result Json
  pub is_object : Json → Bool
  pub is_array : Json → Bool
  pub is_boolean : Json → Bool
  pub is_number_integer : Json → Bool
  pub is_number_float : Json → Bool
  pub is_string : Json → Bool
  -- empty()
  pub is_empty : Json → Bool
  -- The keys and values from begin() to end(), and the values of a range-for.
  pub members : Json → List (Bytes × Json)
  pub elements : Json → List Json
  pub contains : Json → Bytes → Bool
  pub at : Json → Bytes → Result Json
  -- get<...>()
  pub get_bool : Json → Result Bool
  pub get_integer : Json → Result ℕ
  pub get_double : Json → Result ℕ
  pub get_size : Json → Result ℕ
  pub get_string : Json → Result Bytes
  -- value(key, otherwise)
  pub value_string : Json → Bytes → Bytes → Result Bytes
  pub value_double : Json → Bytes → ℕ → Result ℕ
  pub value_json : Json → Bytes → Json → Result Json
  -- Json::object()
  pub object : Json
