-- ===== src/Node/WaitLaws.antt =====
-- The polling loops of Node.Wait: how they end, and what they hand over.
use rcllite.Prelude.{
  ℕ, zero, suc, ◌+◌, ◌-◌, ◌≤◌, ◌<◌, ◌≡◌, ◌≢◌, refl, arith, Bool, true, false, not, ◌==◌, none, some,
  List, ◌∷◌, Bytes, Result, ok, inl, inr, Option-cases, ap,
}
use mathlib.Core.Option
use rcllite.Message.{Message}
use rcllite.Cdr.Writer.{payload, new_writer}
use rcllite.Dds.Serdata.{raw_serdata_from_blob}
use rcllite.Dds.Calls.{
  matched_readers, Trace, Io, Cyclone, Answer, value, precondition_not_met, failed, sent,
}
use rcllite.Dds.Entities.{reader_count, write}
use rcllite.Node.Endpoints.{Publisher, publish}
use rcllite.Node.Wait.{
  wait_until, wait_for, wait_for_subscribers, publish_within, has_subscribers,
  get_subscription_count,
}

-- The trace after `k` polls.
unfoldable pub polls : Io Bool → ℕ → Trace → Trace
polls ready zero trace = trace
polls ready (suc k) trace = polls ready k (ready trace).0

module _ (clock : Trace → ℕ) (ready : Io Bool) where
  wait_until_ends :
      ((trace : Trace) → clock trace < clock (ready trace).0)
      → (fuel deadline : ℕ) (trace : Trace) → deadline - clock trace < fuel
      → (wait_until clock ready fuel deadline trace).1 ≢ none
  unfolding wait_until
  wait_until_ends ticks zero deadline trace h e = absurd (omega arith)
  wait_until_ends ticks (suc fuel) deadline trace h e =
      ground (arith, ticks trace, wait_until_ends ticks fuel deadline (ready trace).0)

  clock-polls :
      ((trace : Trace) → clock trace ≤ clock (ready trace).0)
      → (k : ℕ) (trace : Trace) → clock trace ≤ clock (polls ready k trace)
  unfolding polls
  clock-polls mono zero trace = omega arith
  clock-polls mono (suc k) trace = omega (arith, mono trace, clock-polls mono k (ready trace).0)

  wait_until_finds :
      ((trace : Trace) → clock trace ≤ clock (ready trace).0)
      → ((trace : Trace) → (b : Bool) × ((ready trace).1 ≡ ok b))
      → (k deadline : ℕ) (trace : Trace) → clock (polls ready k trace) < deadline
      → (ready (polls ready k trace)).1 ≡ ok true
      → (wait_until clock ready (suc k) deadline trace).1 ≡ some (ok true)
  unfolding wait_until polls
  wait_until_finds mono plain zero deadline trace h e = ground (arith, e)
  wait_until_finds mono plain (suc k) deadline trace h e =
      let (b, said) = plain trace in
      ground (
        arith,
        said,
        b,
        clock-polls mono k (ready trace).0,
        wait_until_finds mono plain k deadline (ready trace).0 h e,
      )

  wait_until_keeps :
      (view : Trace → List Bytes)
      → ((trace : Trace) → view (ready trace).0 ≡ view trace)
      → (fuel deadline : ℕ) (trace : Trace)
      → view (wait_until clock ready fuel deadline trace).0 ≡ view trace
  unfolding wait_until
  wait_until_keeps view same zero deadline trace = refl
  wait_until_keeps view same (suc fuel) deadline trace =
      ground (arith, same trace, wait_until_keeps view same fuel deadline (ready trace).0)

has_subscribers-log :
    (cyclone : Cyclone) (p : Publisher) (trace : Trace)
    → (has_subscribers cyclone p trace).0 ≡ matched_readers p.writer.wr ∷ trace
unfolding has_subscribers get_subscription_count reader_count
has_subscribers-log cyclone p trace = ground arith

abbrev answer_count : Answer → ℕ
answer_count (value n) = n
answer_count precondition_not_met = 0
answer_count failed = 0

has_subscribers-plain :
    (cyclone : Cyclone) (p : Publisher) (trace : Trace)
    → (b : Bool) × ((has_subscribers cyclone p trace).1 ≡ ok b)
unfolding has_subscribers get_subscription_count reader_count
has_subscribers-plain cyclone p trace =
    (not (answer_count (cyclone trace (matched_readers p.writer.wr)) == 0), ground arith)

module _ (cyclone : Cyclone) (clock : Trace → ℕ) where
  waited-sent :
      (p : Publisher) (fuel timeout : ℕ) (trace : Trace)
      → sent (wait_for_subscribers cyclone clock fuel timeout p trace).0 ≡ sent trace
  unfolding wait_for_subscribers wait_for sent
  waited-sent p fuel timeout trace =
      wait_until_keeps clock (has_subscribers cyclone p) sent
        (λ l. ap sent (has_subscribers-log cyclone p l)) fuel (clock trace + timeout) trace

  -- On a clock that advances with every poll, wait_for_subscribers returns or throws within as
  -- many polls as the timeout has nanoseconds, and one more.
  pub wait_for_subscribers_ends :
      (p : Publisher) (timeout : ℕ) (trace : Trace)
      → ((trace : Trace) → clock trace < clock (matched_readers p.writer.wr ∷ trace))
      → (r : Result Bool) × ((wait_for_subscribers cyclone clock (timeout + 1) timeout p trace).1
          ≡ some r)
  unfolding wait_for_subscribers wait_for has_subscribers get_subscription_count reader_count
  wait_for_subscribers_ends p timeout trace ticks =
      elim (Option-cases (wait_for_subscribers cyclone clock (timeout + 1) timeout p trace).1) [
        | inl e ↦ absurd (
            wait_until_ends clock (has_subscribers cyclone p)
              (λ l. rw (has_subscribers-log cyclone p l) (ticks l)) (timeout + 1)
              (clock trace + timeout) trace (omega arith) e)
        | inr (r, e) ↦ (r, e)
      ]

  -- If the poll behind `k` others finds a reader and ends before the deadline, on a clock that
  -- does not go back, wait_for_subscribers returns true within `k + 1` polls.
  pub wait_for_subscribers_finds :
      (p : Publisher) (k timeout : ℕ) (trace : Trace)
      → ((trace : Trace) → clock trace ≤ clock (matched_readers p.writer.wr ∷ trace))
      → clock (polls (has_subscribers cyclone p) k trace) < clock trace + timeout
      → (has_subscribers cyclone p (polls (has_subscribers cyclone p) k trace)).1 ≡ ok true
      → (wait_for_subscribers cyclone clock (suc k) timeout p trace).1 ≡ some (ok true)
  unfolding wait_for_subscribers wait_for
  wait_for_subscribers_finds p k timeout trace mono h e =
      wait_until_finds clock (has_subscribers cyclone p)
        (λ l. rw (has_subscribers-log cyclone p l) (mono l)) (has_subscribers-plain cyclone p) k
        (clock trace + timeout) trace h e

  -- A publish with a timeout that returns false has handed nothing to CycloneDDS, and one that
  -- returns true has handed over the blob of the message, once.
  pub publish_within-sent :
      {A : Type 0} (fuel bits timeout : ℕ) (message : Message A) (msg : A) (p : Publisher)
      (trace : Trace)
      → ((publish_within cyclone clock fuel bits timeout message msg p trace).1 ≡ some (ok false)
          → sent (publish_within cyclone clock fuel bits timeout message msg p trace).0
            ≡ sent trace)
        × ((publish_within cyclone clock fuel bits timeout message msg p trace).1 ≡ some (ok true)
            → some (sent (publish_within cyclone clock fuel bits timeout message msg p trace).0)
              ≡ Option.map
                  (λ d. d ∷ sent trace)
                  (raw_serdata_from_blob bits (payload (message.serialize msg new_writer))))
  unfolding publish_within publish write sent
  publish_within-sent fuel bits timeout message msg p trace =
      ground (arith, waited-sent p fuel timeout trace)
