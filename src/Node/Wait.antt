-- ===== src/Node/Wait.antt =====
-- The loops that poll for a peer: Publisher::wait_for_subscribers of src/rcllite/publisher.hpp,
-- Client::wait_for_service of src/rcllite/service.hpp, and the publish with a timeout.
use rcllite.Prelude.{
  ℕ, zero, suc, ◌+◌, Bool, true, false, not, if◌then◌else◌, leb, Option, none, some, Result, ok,
  err, ◌==◌,
}
use rcllite.Message.{Message}
use rcllite.Dds.Calls.{Trace, Io, Cyclone, ◌>>=◌, return}
use rcllite.Dds.Entities.{reader_count}
use rcllite.Node.Endpoints.{Publisher, ClientEnds, publish, service_is_ready}

-- Publisher::get_subscription_count
unfoldable pub get_subscription_count : Cyclone → Publisher → Io ℕ
get_subscription_count cyclone p = reader_count cyclone p.writer

-- The condition of the loop in wait_for_subscribers.
unfoldable pub has_subscribers : Cyclone → Publisher → Io Bool
unfolding get_subscription_count
has_subscribers cyclone p = do count ← get_subscription_count cyclone p; return (not (count == 0))

-- `clock` shows the time, in nanoseconds, after the calls so far; the source sleeps 10 ms between
-- two polls.
module _ (clock : Trace → ℕ) where
  -- What one poll decides: what is returned, or to go on.
  abbrev pub decided : ℕ → Trace → Result Bool → Option (Result Bool)
  decided deadline trace (ok true) = some (ok true)
  decided deadline trace (ok false) = if leb deadline (clock trace) then some (ok false) else none
  decided deadline trace (err e) = some (err e)

module _ (clock : Trace → ℕ) (ready : Io Bool) where
  -- The loop; `none` is a loop that has not ended within `fuel` polls.
  unfoldable pub wait_until : ℕ → ℕ → Trace → Trace × Option (Result Bool)
  wait_until zero deadline trace = (trace, none)
  wait_until (suc fuel) deadline trace =
      let trace' = (ready trace).0 in
      let rest = wait_until fuel deadline trace' in
      elim (decided clock deadline trace' (ready trace).1) [
        | some r ↦ (trace', some r)
        | none ↦ rest
      ]

  unfoldable pub wait_for : ℕ → ℕ → Trace → Trace × Option (Result Bool)
  unfolding wait_until
  wait_for fuel timeout trace = wait_until fuel (clock trace + timeout) trace

-- Publisher::wait_for_subscribers
unfoldable pub wait_for_subscribers :
    Cyclone → (Trace → ℕ) → ℕ → ℕ → Publisher → Trace → Trace × Option (Result Bool)
unfolding wait_for has_subscribers
wait_for_subscribers cyclone clock fuel timeout p =
    wait_for clock (has_subscribers cyclone p) fuel timeout

-- Client::wait_for_service
unfoldable pub wait_for_service :
    Cyclone → (Trace → ℕ) → ℕ → ℕ → ClientEnds → Trace → Trace × Option (Result Bool)
unfolding wait_for
wait_for_service cyclone clock fuel timeout c =
    wait_for clock (service_is_ready cyclone c) fuel timeout

abbrev written : Trace × Result (Unit {0}) → Trace × Option (Result Bool)
written (trace, ok u) = (trace, some (ok true))
written (trace, err e) = (trace, some (err e))

-- Publisher::publish with a timeout.
unfoldable pub publish_within :
    {A : Type 0}
    → Cyclone
    → (Trace → ℕ)
    → ℕ
    → ℕ
    → ℕ
    → Message A
    → A
    → Publisher
    → Trace
    → Trace × Option (Result Bool)
unfolding wait_for_subscribers
publish_within cyclone clock fuel bits timeout message msg p trace =
    let waited = wait_for_subscribers cyclone clock fuel timeout p trace in
    elim waited.1 [
      | some (ok true) ↦ written (publish cyclone bits message msg p waited.0)
      | some (ok false) ↦ waited
      | some (err e) ↦ waited
      | none ↦ waited
    ]
