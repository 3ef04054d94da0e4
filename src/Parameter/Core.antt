-- ===== src/Parameter/Core.antt =====
-- ParameterCore::Impl of src/rcllite/parameter.cpp: the store and its four operations. A method
-- returns the store beside its result, since what was stored before an exception stays.
use rcllite.Prelude.{
  ℕ, Bool, true, false, Option, none, some, List, [], ◌∷◌, ◌++◌, Bytes, Result, ok, err, Error,
  invalid_arguments, internal_error, ◌==◌, if◌then◌else◌, text, length,
}
use rcllite.Prelude.OrderedMap
use rcllite.Prelude.OrderedMap.{OrderedMap, text_key}
use rcllite.Parameter.Value.{
  ParameterValue, RclParameter, ParameterEvent, not_set, to_rcl_value, now_stamp,
}

-- What the store asks of the world: the clock when the n-th event is stamped, and whether the
-- writer of /parameter_events takes an event.
pub record World : Type 0 where
  pub clock : ℕ → ℕ
  pub writes : ParameterEvent → Bool

-- `events` are the events that were written, oldest first.
pub record ParameterCore : Type 0 where
  pub node_name : Bytes
  pub values : OrderedMap Bytes ParameterValue
  pub events : List ParameterEvent

abbrev pub publish_failed : Error
publish_failed = internal_error "publish failed on {}" (text "/parameter_events" ∷ [])

-- values_[name] = value
abbrev pub store : Bytes → ParameterValue → ParameterCore → ParameterCore
store name value core = record core { values = OrderedMap.insert name value core.values }

module _ (world : World) where
  abbrev pub event_of : Bytes → ParameterValue → Bool → ParameterCore → ParameterEvent
  event_of name value is_new core =
      let p : RclParameter = record { name = name; value = to_rcl_value value } in
      record {
        stamp = now_stamp (world.clock (length core.events));
        node = core.node_name;
        new_parameters = if is_new then p ∷ [] else [];
        changed_parameters = if is_new then [] else p ∷ [];
      }

  unfoldable pub publish_event_locked :
      Bytes → ParameterValue → Bool → ParameterCore → ParameterCore × Result (Unit {0})
  publish_event_locked name value is_new core =
      let event = event_of name value is_new core in
      if world.writes event
      then (record core { events = core.events ++ (event ∷ []) }, ok tt)
      else (core, err publish_failed)

  -- if (value.type != NotSet) publish_event_locked(...)
  unfoldable pub publish_if_set :
      Bytes → ParameterValue → Bool → ParameterCore → ParameterCore × Result (Unit {0})
  publish_if_set name value is_new core =
      if value.type == not_set then (core, ok tt) else publish_event_locked name value is_new core

  unfoldable pub declare :
      Bytes → ParameterValue → ParameterCore → ParameterCore × Result (Unit {0})
  declare [] default_value core =
      (core, err (invalid_arguments "parameter name must not be empty" []))
  declare (c ∷ s) default_value core = elim (OrderedMap.find (c ∷ s) core.values) [
    | some v ↦ (core, err (invalid_arguments "parameter already declared: {}" ((c ∷ s) ∷ [])))
    | none ↦ publish_if_set (c ∷ s) default_value true (store (c ∷ s) default_value core)
  ]

  -- The rest of set, behind the search.
  unfoldable pub set_found :
      Bytes → ParameterValue → Option ParameterValue → ParameterCore → ParameterCore × Result Bool
  set_found name value none core = (core, ok false)
  set_found name value (some old) core =
      let (core', published) =
        publish_if_set name value (old.type == not_set) (store name value core) in
      (core', elim published [ ok u ↦ ok true | err e ↦ err e ])

  unfoldable pub set : Bytes → ParameterValue → ParameterCore → ParameterCore × Result Bool
  set name value core = set_found name value (OrderedMap.find name core.values) core

unfoldable pub get : Bytes → ParameterCore → Result ParameterValue
get name core = elim (OrderedMap.find name core.values) [
  | none ↦ err (invalid_arguments "parameter not declared: {}" (name ∷ []))
  | some v ↦ ok v
]

unfoldable pub get_or : Bytes → ParameterCore → Option ParameterValue
get_or name core = OrderedMap.find name core.values

-- Node::get_parameter_or<T> and Node::get_parameter<T>; `value_as` is the member for T.
unfoldable pub get_parameter_or :
    {T : Type 0} → (ParameterValue → T) → Bytes → T → ParameterCore → T
get_parameter_or value_as name alternative core = elim (get_or name core) [
  | none ↦ alternative
  | some v ↦ value_as v
]

unfoldable pub get_parameter :
    {T : Type 0} → (ParameterValue → T) → Bytes → ParameterCore → Result T
get_parameter value_as name core = elim (get_or name core) [
  | none ↦ err (invalid_arguments "parameter not declared: {}" (name ∷ []))
  | some v ↦ ok (value_as v)
]
