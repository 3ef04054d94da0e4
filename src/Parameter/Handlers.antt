-- ===== src/Parameter/Handlers.antt =====
-- The handlers of the parameter services that read and write values, of src/rcllite/parameter.cpp.
use rcllite.Prelude.{
  ℕ, Bool, true, false, Option, none, some, List, [], ◌∷◌, ◌++◌, Bytes, Result, ok, err, text,
  if◌then◌else◌,
}
use rcllite.Prelude.OrderedMap
use rcllite.Prelude.OrderedMap.{OrderedMap, text_key}
use rcllite.Parameter.Value.{
  ParameterValue, RclParameter, RclParameterValue, new_value, not_set, to_rcl_value, from_rcl_value,
}
use rcllite.Parameter.Core.{World, ParameterCore, set}

-- The type of a parameter, NotSet where it is not declared.
unfoldable pub type_of : Bytes → ParameterCore → ℕ
type_of name core = elim (OrderedMap.find name core.values) [ none ↦ not_set | some v ↦ v.type ]

-- rcl_interfaces/msg/ParameterDescriptor
pub record ParameterDescriptor : Type 0 where
  pub name : Bytes
  pub type : ℕ
  pub dynamic_typing : Bool

unfoldable pub handle_describe : List Bytes → ParameterCore → List ParameterDescriptor
handle_describe [] core = []
handle_describe (name ∷ names) core =
    record { name = name; type = type_of name core; dynamic_typing = false }
    ∷ handle_describe names core

unfoldable pub handle_get_types : List Bytes → ParameterCore → List ℕ
handle_get_types [] core = []
handle_get_types (name ∷ names) core = type_of name core ∷ handle_get_types names core

unfoldable pub value_or_default : Option ParameterValue → RclParameterValue
value_or_default none = to_rcl_value new_value
value_or_default (some v) = to_rcl_value v

unfoldable pub handle_get : List Bytes → ParameterCore → List RclParameterValue
handle_get [] core = []
handle_get (name ∷ names) core =
    value_or_default (OrderedMap.find name core.values) ∷ handle_get names core

-- rcl_interfaces/msg/SetParametersResult
pub record SetParametersResult : Type 0 where
  pub successful : Bool
  pub reason : Bytes

-- The result for one parameter of a request.
unfoldable pub set_result : Bool → SetParametersResult
set_result true = record { successful = true; reason = [] }
set_result false = record { successful = false; reason = text "parameter not declared" }

-- r.reason.empty() ? "" : ", "
abbrev pub separator : Bytes → Bytes
separator [] = []
separator (c ∷ s) = text ", "

-- The loop of the first half: the reason so far grows by each name that is not declared.
unfoldable pub undeclared : List RclParameter → ParameterCore → Bool × Bytes → Bool × Bytes
undeclared [] core state = state
undeclared (p ∷ ps) core (all_declared, reason) =
    undeclared ps core (elim (OrderedMap.find p.name core.values) [
      | some v ↦ (all_declared, reason)
      | none ↦ (false, reason ++ (separator reason ++ p.name))
    ])

module _ (world : World) where
  -- The loop stops where an exception leaves it, and gives the exception.
  unfoldable pub handle_set :
      List RclParameter → ParameterCore → ParameterCore × Result (List SetParametersResult)
  handle_set [] core = (core, ok [])
  handle_set (p ∷ ps) core =
      let (core', done) = set world p.name (from_rcl_value p.value) core in
      elim done [
        | err e ↦ (core', err e)
        | ok found ↦
            let (core'', rest) = handle_set ps core' in
            (core'', elim rest [ err e ↦ err e | ok results ↦ ok (set_result found ∷ results) ])
      ]

  -- The loop of the second half; the results of set are not looked at.
  unfoldable pub set_all : List RclParameter → ParameterCore → ParameterCore × Result (Unit {0})
  set_all [] core = (core, ok tt)
  set_all (p ∷ ps) core =
      let (core', done) = set world p.name (from_rcl_value p.value) core in
      elim done [ err e ↦ (core', err e) | ok found ↦ set_all ps core' ]

  unfoldable pub handle_set_atomically :
      List RclParameter → ParameterCore → ParameterCore × Result SetParametersResult
  handle_set_atomically ps core =
      let (all_declared, reason) = undeclared ps core (true, []) in
      if all_declared
      then (let (core', done) = set_all ps core in
          (
            core',
            elim done [ err e ↦ err e | ok u ↦ ok (record { successful = true; reason = reason }) ],
          ))
      else (
        core,
        ok (record { successful = false; reason = text "parameters not declared: " ++ reason }),
      )
