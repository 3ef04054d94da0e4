-- ===== src/Parameter/Typed.antt =====
-- The types that the handlers of src/rcllite/parameter.cpp report, before and after a set.
use rcllite.Prelude.{
  ℕ, ◌≡◌, refl, ap, ◌∙◌, subst, Bool, true, false, ◌&&◌, Option, none, some, List, [], ◌∷◌, Bytes,
  if◌then◌else◌, same_text, map, Option-cases, inl, inr,
}
use rcllite.Parameter.Value.{ParameterValue, not_set, new_value, to_rcl_value}
use rcllite.Parameter.Core.{World, ParameterCore, set}
use rcllite.Parameter.Handlers.{
  type_of, handle_describe, handle_get_types, handle_get, value_or_default,
}
use rcllite.Parameter.Laws.{value_at, is_declared, value_at-set}

-- Every handler that reports types reports these, in the order of the request, and no parameter
-- is said to have a dynamic type.
pub record Reports (names : List Bytes) (types : List ℕ) (core : ParameterCore) : Type 0 where
  pub asked : handle_get_types names core ≡ types
  pub of_values : map (λ v. v.type) (handle_get names core) ≡ types
  pub described : map (λ d. d.type) (handle_describe names core) ≡ types
  pub named : map (λ d. d.name) (handle_describe names core) ≡ names
  pub fixed : map (λ d. d.dynamic_typing) (handle_describe names core) ≡ map (λ n. false) names

value_or_default-type :
    (name : Bytes) (core : ParameterCore)
    → (value_or_default (value_at name core)).type ≡ type_of name core
unfolding type_of value_or_default to_rcl_value new_value
value_or_default-type name core = elim (Option-cases (value_at name core)) [
  | inl e ↦ rw (e, type_of) refl
  | inr (v, e) ↦ rw (e, type_of) refl
]

type_of-Reports :
    (names : List Bytes) (core : ParameterCore)
    → Reports names (map (λ n. type_of n core) names) core
unfolding handle_get_types handle_get handle_describe
type_of-Reports [] core = record {
  asked = refl;
  of_values = refl;
  described = refl;
  named = refl;
  fixed = refl;
}
type_of-Reports (name ∷ names) core =
    let rest = type_of-Reports names core in
    record {
      asked = ap (λ l. type_of name core ∷ l) rest.asked;
      of_values =
          ap (λ t. t ∷ map (λ v. v.type) (handle_get names core)) (value_or_default-type name core)
          ∙ ap (λ l. type_of name core ∷ l) rest.of_values;
      described = ap (λ l. type_of name core ∷ l) rest.described;
      named = ap (λ l. name ∷ l) rest.named;
      fixed = ap (λ l. false ∷ l) rest.fixed;
    }

module _ (world : World) (name : Bytes) (value : ParameterValue) (core : ParameterCore) where
  type_of-set :
      (n : Bytes)
      → type_of n (set world name value core).0
        ≡ (if is_declared name core && same_text name n then value.type else type_of n core)
  unfolding type_of
  type_of-set n =
      ap type_in (value_at-set world name n value core)
      ∙ chosen (is_declared name core && same_text name n)
    where
      type_in : Option ParameterValue → ℕ
      type_in o = elim o [ none ↦ not_set | some v ↦ v.type ]

      chosen :
          (c : Bool)
          → type_in (if c then some value else value_at n core)
            ≡ (if c then value.type else type_of n core)
      chosen true = refl
      chosen false = refl

  types_after :
      (names : List Bytes)
      → map (λ n. type_of n (set world name value core).0) names
        ≡ map
            (λ n. if is_declared name core && same_text name n then value.type else type_of n core)
            names
  types_after [] = refl
  types_after (n ∷ names) = rw (type_of-set n, types_after names) refl

  -- After a set, whatever its value and whether the event could be written, the handlers that
  -- give types, values and descriptors all report for a declared name that was set the type of
  -- the new value, for every other name the type of before, in the order of the request; the
  -- descriptors name what was asked for, and none says that the type is dynamic.
  pub set-Reports :
      (names : List Bytes)
      → Reports names
          (map
            (λ n. if is_declared name core && same_text name n then value.type else type_of n core)
            names)
          (set world name value core).0
  set-Reports names =
      subst (λ ts. Reports names ts (set world name value core).0) (types_after names)
        (type_of-Reports names (set world name value core).0)
