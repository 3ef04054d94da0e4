-- ===== src/Parameter/Atomic.antt =====
-- set_parameters and set_parameters_atomically of src/rcllite/parameter.cpp.
use rcllite.Prelude.{
  ◌≡◌, refl, sym, ap, ◌∙◌, ◌⊎◌, inl, inr, Bool, true, false, Option, some, List, [], ◌∷◌, ◌++◌,
  Bytes, arith, ok, if◌then◌else◌, same_text, Option-cases, Bool-cases, ◌==◌, All, text,
}
use mathlib.Core.Bool.{false≢true}
use rcllite.Prelude.OrderedMap.{text_key}
use rcllite.Parameter.Value.{ParameterValue, ParameterEvent, RclParameter, not_set, from_rcl_value}
use rcllite.Parameter.Core.{
  World, ParameterCore, event_of, publish_event_locked, publish_if_set, store, set_found, set,
}
use rcllite.Parameter.Laws.{value_at, is_declared, value_at-set}
use rcllite.Parameter.Handlers.{SetParametersResult, undeclared, set_all, handle_set_atomically}

abbrev pub IsDeclared : ParameterCore → RclParameter → Type 0
IsDeclared core p = is_declared p.name core ≡ true

-- What a name stands for after the assignments of a request, in their order.
abbrev pub assigned : List RclParameter → Bytes → Option ParameterValue → Option ParameterValue
assigned [] name old = old
assigned (p ∷ ps) name old =
    assigned ps name (if same_text p.name name then some (from_rcl_value p.value) else old)

-- The first half answers true exactly where every name is declared, and then has no reason.
flag :
    (ps : List RclParameter) (core : ParameterCore) (b : Bool) (reason : Bytes)
    → (undeclared ps core (b, reason)).0 ≡ true
    → (b ≡ true) × All (IsDeclared core) ps
unfolding undeclared
flag [] core b reason h = (h, tt)
flag (p ∷ ps) core b reason h = elim (Option-cases (value_at p.name core)) [
  | inl e ↦ absurd (false≢true (flag ps core false _ (rw (e, undeclared) at h)).0)
  | inr (v, e) ↦
      let r = flag ps core b reason (rw (e, undeclared) at h) in
      (r.0, (rw (e, is_declared) refl, r.1))
]

flag_back :
    (ps : List RclParameter) (core : ParameterCore) (reason : Bytes)
    → All (IsDeclared core) ps
    → undeclared ps core (true, reason) ≡ (true, reason)
unfolding undeclared
flag_back [] core reason h = refl
flag_back (p ∷ ps) core reason h = elim (Option-cases (value_at p.name core)) [
  | inl e ↦ absurd (ground (arith, h.0, e))
  | inr (v, e) ↦ rw (e, undeclared) (flag_back ps core reason h.1)
]

module _ (world : World) (works : (e : ParameterEvent) → world.writes e ≡ true) where
  publish_works :
      (name : Bytes) (value : ParameterValue) (is_new : Bool) (core : ParameterCore)
      → (publish_if_set world name value is_new core).1 ≡ ok tt
  unfolding publish_if_set publish_event_locked
  publish_works name value is_new core =
      ground (arith, works (event_of world name value is_new core))

  -- A set answers whether the name is declared.
  pub set-result :
      (name : Bytes) (value : ParameterValue) (core : ParameterCore)
      → (set world name value core).1 ≡ ok (is_declared name core)
  unfolding set set_found
  set-result name value core = elim (Option-cases (value_at name core)) [
    | inl e ↦ rw (e, set_found, is_declared) refl
    | inr (old, e) ↦
        rw (e, set_found, is_declared)
          (rw (publish_works name value (old.type == not_set) (store name value core)) refl)
  ]

  is_declared-set :
      (name j : Bytes) (value : ParameterValue) (core : ParameterCore)
      → is_declared j core ≡ true
      → is_declared j (set world name value core).0 ≡ true
  is_declared-set name j value core h =
      rw (value_at-set world name j value core, is_declared) (ground (arith, h))

  still-IsDeclared :
      (name : Bytes) (value : ParameterValue) (core : ParameterCore) (ps : List RclParameter)
      → All (IsDeclared core) ps
      → All (IsDeclared (set world name value core).0) ps
  still-IsDeclared name value core [] k = tt
  still-IsDeclared name value core (p ∷ ps) k =
      (is_declared-set name p.name value core k.0, still-IsDeclared name value core ps k.1)

  set_all_declared :
      (ps : List RclParameter) (core : ParameterCore)
      → All (IsDeclared core) ps
      → ((set_all world ps core).1 ≡ ok tt)
        × ((name : Bytes)
            → value_at name (set_all world ps core).0 ≡ assigned ps name (value_at name core))
  unfolding set_all
  set_all_declared [] core h = (refl, λ name. refl)
  set_all_declared (p ∷ ps) core h =
      let v = from_rcl_value p.value in
      let rest =
        set_all_declared ps (set world p.name v core).0 (still-IsDeclared p.name v core ps h.1) in
      rw (set-result p.name v core, set_all)
        (
          rest.0,
          λ name.
              rest.1 name
              ∙ ap (assigned ps name) (value_at-set world p.name name v core ∙ ground (arith, h.0)),
        )

  -- With a writer that takes every event: a request that names an undeclared parameter leaves
  -- the store, its events included, as it was, and is not successful; any other is successful,
  -- and every name has the last value that the request gives it, or what it had.
  pub handle_set_atomically_lem :
      (ps : List RclParameter) (core : ParameterCore)
      → (All (IsDeclared core) ps
          × ((handle_set_atomically world ps core).1
              ≡ ok (record { successful = true; reason = [] }))
          × ((name : Bytes)
              → value_at name (handle_set_atomically world ps core).0
                ≡ assigned ps name (value_at name core)))
        ⊎ (¬ (All (IsDeclared core) ps)
            × ((handle_set_atomically world ps core).0 ≡ core)
            × ((r : SetParametersResult) × ((handle_set_atomically world ps core).1 ≡ ok r)
                × (r.successful ≡ false)))
  unfolding handle_set_atomically
  handle_set_atomically_lem ps core = elim (Bool-cases (undeclared ps core (true, [])).0) [
    | inl all ↦
        let h = (flag ps core true [] all).1 in
        let done = set_all_declared ps core h in
        inl (h, rw (all, done.0, ap (λ s. s.1) (flag_back ps core [] h)) refl, rw all done.1)
    | inr some_missing ↦ inr (
      λ h. false≢true (sym some_missing ∙ ap (λ s. s.0) (flag_back ps core [] h)),
      rw some_missing refl,
      (
        record {
          successful = false;
          reason = text "parameters not declared: " ++ (undeclared ps core (true, [])).1;
        },
        rw some_missing refl,
        refl,
      ),
    )
  ]
