-- ===== src/Parameter/Laws.antt =====
-- What the operations of the parameter store (src/rcllite/parameter.cpp) do to each name.
use rcllite.Prelude.{
  ◌≡◌, ◌≢◌, refl, ap, ◌∙◌, Bool, true, false, ◌&&◌, Option, none, some, [], ◌∷◌, Bytes, arith,
  if◌then◌else◌, same_text, Option-cases, inl, inr,
}
use rcllite.Prelude.OrderedMap
use rcllite.Prelude.OrderedMap.{OrderedMap, text_key, find-insert}
use rcllite.Parameter.Value.{ParameterValue}
use rcllite.Parameter.Core.{
  World, ParameterCore, publish_event_locked, publish_if_set, store, declare, set_found, set,
}

-- What a name stands for.
abbrev pub value_at : Bytes → ParameterCore → Option ParameterValue
value_at name core = OrderedMap.find name core.values

abbrev pub is_declared : Bytes → ParameterCore → Bool
is_declared name core = elim (value_at name core) [ none ↦ false | some v ↦ true ]

module _ (world : World) where
  -- Publishing leaves the values alone, whether the writer takes the event or not.
  pub publish_if_set-values :
      (name : Bytes) (value : ParameterValue) (is_new : Bool) (core : ParameterCore)
      → (publish_if_set world name value is_new core).0.values ≡ core.values
  unfolding publish_if_set publish_event_locked
  publish_if_set-values name value is_new core = ground arith

  -- The store after a set, at every name, also where the event could not be written.
  pub value_at-set :
      (name j : Bytes) (value : ParameterValue) (core : ParameterCore)
      → value_at j (set world name value core).0
        ≡ (if is_declared name core && same_text name j then some value else value_at j core)
  unfolding set set_found
  value_at-set name j value core = elim (Option-cases (value_at name core)) [
    | inl e ↦ rw (e, set_found, is_declared) refl
    | inr (old, e) ↦
        rw (e, set_found, is_declared)
          (ap (OrderedMap.find j) (publish_if_set-values name value _ (store name value core))
            ∙ find-insert name j value core.values)
  ]

  -- declare gives a new name its value, and refuses an empty or a known one without a change.
  pub value_at-declare :
      (name j : Bytes) (value : ParameterValue) (core : ParameterCore)
      → (name ≢ [])
      → value_at name core ≡ none
      → value_at j (declare world name value core).0
        ≡ (if same_text name j then some value else value_at j core)
  unfolding declare
  value_at-declare [] j value core h e = absurd (h refl)
  value_at-declare (c ∷ s) j value core h e =
      rw (e, declare)
        (ap (OrderedMap.find j)
            (publish_if_set-values (c ∷ s) value true (store (c ∷ s) value core))
          ∙ find-insert (c ∷ s) j value core.values)
