-- ===== src/Parameter/Replay.antt =====
-- The events of /parameter_events (src/rcllite/parameter.cpp) against the values of the store.
use rcllite.Prelude.{
  ◌≡◌, refl, sym, subst, ap, ◌∙◌, inl, inr, Bool, true, false, not, ◌&&◌, Option, none, some, List,
  [], ◌∷◌, ◌++◌, Bytes, arith, if◌then◌else◌, same_text, same_text_iff, Option-cases, Bool-cases,
  ◌==◌,
}
use rcllite.Prelude.OrderedMap
use rcllite.Prelude.OrderedMap.{OrderedMap, text_key, find-insert}
use rcllite.Parameter.Value.{ParameterValue, ParameterEvent, not_set, from_rcl_value, to_rcl_value}
use rcllite.Parameter.Core.{
  World, ParameterCore, event_of, publish_event_locked, publish_if_set, store, declare, set_found,
  set,
}
use rcllite.Parameter.Laws.{value_at, publish_if_set-values}
use rcllite.Parameter.Atomic.{assigned}

-- What somebody who has followed the events holds for a name.
abbrev pub watch : List ParameterEvent → Bytes → Option ParameterValue → Option ParameterValue
watch [] name old = old
watch (e ∷ es) name old =
    watch es name (assigned e.changed_parameters name (assigned e.new_parameters name old))

watch-append :
    (es : List ParameterEvent) (e : ParameterEvent) (name : Bytes) (old : Option ParameterValue)
    → watch (es ++ (e ∷ [])) name old
      ≡ assigned e.changed_parameters name (assigned e.new_parameters name (watch es name old))
watch-append [] e name old = refl
watch-append (d ∷ es) e name old = watch-append es e name _

-- A parameter that is declared without a value is not announced.
abbrev pub shown : Option ParameterValue → Option ParameterValue
shown none = none
shown (some v) = if v.type == not_set then none else some v

-- Followers of the events hold the values of the store.
pub record IsWatched (core : ParameterCore) : Type 0 where
  pub at : (name : Bytes) → watch core.events name none ≡ shown (value_at name core)

-- One assignment on both sides: a new name, and a value.
fresh_step :
    (same : Bool) (value : ParameterValue) (watched found : Option ParameterValue)
    → watched ≡ shown found
    → (same ≡ true → found ≡ none)
    → (if not (value.type == not_set) && same then some value else watched)
      ≡ shown (if same then some value else found)
fresh_step true value watched found w h = rw (w, h refl) (ground arith)
fresh_step false value watched found w h = rw w (ground arith)

value_step :
    (same : Bool) (value : ParameterValue) (watched found : Option ParameterValue)
    → watched ≡ shown found
    → (value.type == not_set) ≡ false
    → (if not (value.type == not_set) && same then some value else watched)
      ≡ shown (if same then some value else found)
value_step true value watched found w h = rw h refl
value_step false value watched found w h = rw (h, w) refl

module _ (world : World) (works : (e : ParameterEvent) → world.writes e ≡ true) where
  watch-event :
      (name j : Bytes) (value : ParameterValue) (is_new : Bool) (core : ParameterCore)
      → watch (core.events ++ (event_of world name value is_new core ∷ [])) j none
        ≡ (if same_text name j then some value else watch core.events j none)
  unfolding from_rcl_value to_rcl_value
  watch-event name j value true core = watch-append core.events _ j none
  watch-event name j value false core = watch-append core.events _ j none

  watch-publish :
      (name j : Bytes) (value : ParameterValue) (is_new : Bool) (core : ParameterCore)
      → watch (publish_if_set world name value is_new core).0.events j none ≡ (
          if not (value.type == not_set) && same_text name j
          then some value
          else watch core.events j none)
  unfolding publish_if_set publish_event_locked
  watch-publish name j value is_new core = elim (Bool-cases (value.type == not_set)) [
    | inl quiet ↦ rw quiet refl
    | inr loud ↦
        rw (loud, works (event_of world name value is_new core))
          (watch-event name j value is_new core)
  ]

  stored :
      (name j : Bytes) (value : ParameterValue) (is_new : Bool) (core : ParameterCore)
      → value_at j (publish_if_set world name value is_new (store name value core)).0
        ≡ (if same_text name j then some value else value_at j core)
  stored name j value is_new core =
      ap (OrderedMap.find j) (publish_if_set-values world name value is_new (store name value core))
      ∙ find-insert name j value core.values

  -- A declaration of a new name keeps followers in step, with a value or without.
  declare-IsWatched :
      (name : Bytes) (value : ParameterValue) (core : ParameterCore)
      → IsWatched core
      → IsWatched (declare world name value core).0
  unfolding declare
  declare-IsWatched [] value core w = w
  declare-IsWatched (c ∷ s) value core w = elim (Option-cases (value_at (c ∷ s) core)) [
    | inr (v, e) ↦ rw (e, declare) w
    | inl e ↦ record {
      at = λ j.
          rw (e, declare)
            (watch-publish (c ∷ s) j value true (store (c ∷ s) value core)
              ∙ fresh_step (same_text (c ∷ s) j) value _ _ (w.at j)
                  (λ same. subst (λ k. value_at k core ≡ none) ((same_text_iff (c ∷ s) j).0 same) e)
              ∙ ap shown (sym (stored (c ∷ s) j value true core)));
    }
  ]

  -- A set to a value keeps followers in step, of a declared name or not.
  set-IsWatched :
      (name : Bytes) (value : ParameterValue) (core : ParameterCore)
      → (value.type == not_set) ≡ false
      → IsWatched core
      → IsWatched (set world name value core).0
  unfolding set set_found
  set-IsWatched name value core h w = elim (Option-cases (value_at name core)) [
    | inl e ↦ rw (e, set, set_found) w
    | inr (old, e) ↦ record {
      at = λ j.
          rw (e, set, set_found)
            (watch-publish name j value (old.type == not_set) (store name value core)
              ∙ value_step (same_text name j) value _ _ (w.at j) h
              ∙ ap shown (sym (stored name j value (old.type == not_set) core)));
    }
  ]

  -- The operations of a node's own code and of its peers that give values.
  pub data Life (start : ParameterCore) : ParameterCore → Type 0 where
    born : Life start start
    declares :
        (name : Bytes) (value : ParameterValue) (core : ParameterCore)
        → Life start core
        → Life start (declare world name value core).0
    sets :
        (name : Bytes) (value : ParameterValue) (core : ParameterCore)
        → Life start core
        → (value.type == not_set) ≡ false
        → Life start (set world name value core).0

  Life-keeps : {start core : ParameterCore} → IsWatched start → Life start core → IsWatched core
  Life-keeps w born = w
  Life-keeps w (declares name value core l) = declare-IsWatched name value core (Life-keeps w l)
  Life-keeps w (sets name value core l h) = set-IsWatched name value core h (Life-keeps w l)

  -- After any declarations and any sets to values, on a store that starts empty and with a
  -- writer that takes every event, a follower of the events holds for each name the value of the
  -- store, and nothing for a parameter that has no value yet.
  pub Life-IsWatched :
      (node : Bytes) {core : ParameterCore}
      → Life (record { node_name = node; values = []; events = [] }) core
      → (name : Bytes) → watch core.events name none ≡ shown (value_at name core)
  Life-IsWatched node {core} l = (Life-keeps empty_store l).at
    where
      empty_store : IsWatched (record { node_name = node; values = []; events = [] })
      empty_store = record { at = λ name. unfold OrderedMap.find in refl }
