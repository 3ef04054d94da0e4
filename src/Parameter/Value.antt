-- ===== src/Parameter/Value.antt =====
-- param::ParameterValue, its conversions, and the message structs of rcl_interfaces that
-- src/rcllite/parameter.cpp fills in. Those structs are generated; only the members that the source
-- uses are here. Numbers with a sign and floating numbers stand by their bit patterns.
use rcllite.Prelude.{ℕ, ◌/◌, ◌%◌, ◌^◌, ◌≡◌, refl, Bool, false, List, [], Bytes}

-- enum class Type : uint8_t. A value that comes off the wire can be any byte.
abbrev pub not_set : ℕ
not_set = 0

abbrev pub bool_type : ℕ
bool_type = 1

abbrev pub integer_type : ℕ
integer_type = 2

abbrev pub double_type : ℕ
double_type = 3

abbrev pub string_type : ℕ
string_type = 4

abbrev pub string_array_type : ℕ
string_array_type = 9

pub record ParameterValue : Type 0 where
  pub type : ℕ
  pub bool_value : Bool
  pub integer_value : ℕ
  pub double_value : ℕ
  pub string_value : Bytes
  pub byte_array_value : Bytes
  pub bool_array_value : List Bool
  pub integer_array_value : List ℕ
  pub double_array_value : List ℕ
  pub string_array_value : List Bytes

-- ParameterValue{}
unfoldable pub new_value : ParameterValue
new_value = record {
  type = not_set;
  bool_value = false;
  integer_value = 0;
  double_value = 0;
  string_value = [];
  byte_array_value = [];
  bool_array_value = [];
  integer_array_value = [];
  double_array_value = [];
  string_array_value = [];
}

-- The overloads of to_value.
unfoldable pub bool_to_value : Bool → ParameterValue
unfolding new_value
bool_to_value v = record new_value { type = bool_type; bool_value = v }

unfoldable pub integer_to_value : ℕ → ParameterValue
unfolding new_value
integer_to_value v = record new_value { type = integer_type; integer_value = v }

unfoldable pub double_to_value : ℕ → ParameterValue
unfolding new_value
double_to_value v = record new_value { type = double_type; double_value = v }

unfoldable pub string_to_value : Bytes → ParameterValue
unfolding new_value
string_to_value v = record new_value { type = string_type; string_value = v }

unfoldable pub string_array_to_value : List Bytes → ParameterValue
unfolding new_value
string_array_to_value v = record new_value { type = string_array_type; string_array_value = v }

-- rcl_interfaces/msg/ParameterValue
pub record RclParameterValue : Type 0 where
  pub type : ℕ
  pub bool_value : Bool
  pub integer_value : ℕ
  pub double_value : ℕ
  pub string_value : Bytes
  pub byte_array_value : Bytes
  pub bool_array_value : List Bool
  pub integer_array_value : List ℕ
  pub double_array_value : List ℕ
  pub string_array_value : List Bytes

unfoldable pub to_rcl_value : ParameterValue → RclParameterValue
to_rcl_value v = record {
  type = v.type;
  bool_value = v.bool_value;
  integer_value = v.integer_value;
  double_value = v.double_value;
  string_value = v.string_value;
  byte_array_value = v.byte_array_value;
  bool_array_value = v.bool_array_value;
  integer_array_value = v.integer_array_value;
  double_array_value = v.double_array_value;
  string_array_value = v.string_array_value;
}

unfoldable pub from_rcl_value : RclParameterValue → ParameterValue
from_rcl_value v = record {
  type = v.type;
  bool_value = v.bool_value;
  integer_value = v.integer_value;
  double_value = v.double_value;
  string_value = v.string_value;
  byte_array_value = v.byte_array_value;
  bool_array_value = v.bool_array_value;
  integer_array_value = v.integer_array_value;
  double_array_value = v.double_array_value;
  string_array_value = v.string_array_value;
}

pub from_rcl_value-to_rcl_value : (v : ParameterValue) → from_rcl_value (to_rcl_value v) ≡ v
unfolding from_rcl_value to_rcl_value
from_rcl_value-to_rcl_value v = refl

-- rcl_interfaces/msg/Parameter
pub record RclParameter : Type 0 where
  pub name : Bytes
  pub value : RclParameterValue

-- builtin_interfaces/msg/Time
pub record Time : Type 0 where
  pub sec : ℕ
  pub nanosec : ℕ

-- now_stamp(), of the nanoseconds that the system clock shows.
unfoldable pub now_stamp : ℕ → Time
now_stamp now = record { sec = now / 10 ^ 9 % 2 ^ 32; nanosec = now % 10 ^ 9 }

-- rcl_interfaces/msg/ParameterEvent
pub record ParameterEvent : Type 0 where
  pub stamp : Time
  pub node : Bytes
  pub new_parameters : List RclParameter
  pub changed_parameters : List RclParameter
