-- ===== src/Topology/Counts.antt =====
-- The counters of the raw publishers against the samples that CycloneDDS has taken.
use rcllite.Prelude.{
  ℕ, zero, suc, ◌+◌, ◌%◌, ◌^◌, ◌≡◌, refl, ap, arith, Bool, false, List, [], ◌∷◌, Bytes, ◌==◌,
  if◌then◌else◌, ok, inl, inr, Bool-cases,
}
use rcllite.Dds.Calls.{
  writecdr, Trace, Cyclone, Answer, value, precondition_not_met, failed, Ends, Ends-ok, Ends-at,
  Ends-then,
}
use rcllite.Dds.Entities.{write}
use rcllite.Topology.State.{RawPublisher, NodeEntry}
use rcllite.Topology.Publish.{
  is_positive, update_at, dispatch_raw, publish_once, start_one, start_all, start_publishing,
  round_of, thread_round, Running, Step, round, dispatch, stop, Reach, start, later,
}

-- The answer DDS_RETCODE_OK.
abbrev is_ok : Answer → Bool
is_ok (value rc) = rc == 0
is_ok precondition_not_met = false
is_ok failed = false

-- The number of samples that dds_writecdr has taken.
unfoldable pub taken_samples : Cyclone → Trace → ℕ
taken_samples cyclone [] = 0
taken_samples cyclone (writecdr wr d ∷ trace) =
    let before = taken_samples cyclone trace in
    if is_ok (cyclone trace (writecdr wr d)) then suc before else before
taken_samples cyclone (_ ∷ trace) = taken_samples cyclone trace

unfoldable pub published_of : List RawPublisher → ℕ
published_of [] = 0
published_of (p ∷ ps) = p.published + published_of ps

-- What status_json reports as published, over all publishers.
unfoldable pub total_published : List NodeEntry → ℕ
total_published [] = 0
total_published (n ∷ ns) = published_of n.publishers + total_published ns

-- Equal numbers up to multiples of 2 ^ 64, where the counters wrap.
abbrev pub SameCount : ℕ → ℕ → Type 0
SameCount a b = a % 2 ^ 64 ≡ b % 2 ^ 64

module _ (cyclone : Cyclone) (bits : ℕ) where
  -- What was published and taken grows alike.
  abbrev Grows : {A : Type 0} → (A → ℕ) → ℕ → Trace → A → Trace → Type 0
  Grows count before trace a trace' =
      SameCount (count a + taken_samples cyclone trace) (before + taken_samples cyclone trace')

  publish_once-Grows :
      (p : RawPublisher) (trace : Trace)
      → Ends (Grows (λ q. q.published) p.published trace) (publish_once cyclone bits p trace)
  unfolding publish_once write taken_samples
  publish_once-Grows p trace = record { holds = λ q e. ground arith }

  start_one-Grows :
      (p : RawPublisher) (trace : Trace)
      → Ends (Grows (λ q. q.published) p.published trace) (start_one cyclone bits p trace)
  unfolding start_one
  start_one-Grows p trace = elim (Bool-cases (is_positive p.rate_hz)) [
    | inl periodic ↦ rw periodic (Ends-ok p trace refl)
    | inr once ↦ rw once (publish_once-Grows p trace)
  ]

  start_all-Grows :
      (ps : List RawPublisher) (trace : Trace)
      → Ends (Grows published_of (published_of ps) trace) (start_all cyclone bits ps trace)
  unfolding start_all published_of
  start_all-Grows [] trace = Ends-ok [] trace refl
  start_all-Grows (p ∷ ps) trace =
      Ends-then (start_one cyclone bits p trace) (start_one-Grows p trace) (λ p' trace1 e1.
        Ends-then (start_all cyclone bits ps trace1) (start_all-Grows ps trace1)
          (λ ps' trace2 e2. Ends-ok (p' ∷ ps') trace2 (omega (arith, e1, e2))))

  start_publishing-Grows :
      (ns : List NodeEntry) (trace : Trace)
      → Ends
          (Grows total_published (total_published ns) trace)
          (start_publishing cyclone bits ns trace)
  unfolding start_publishing total_published
  start_publishing-Grows [] trace = Ends-ok [] trace refl
  start_publishing-Grows (n ∷ ns) trace =
      Ends-then (start_all cyclone bits n.publishers trace) (start_all-Grows n.publishers trace)
        (λ ps trace1 e1.
          Ends-then (start_publishing cyclone bits ns trace1) (start_publishing-Grows ns trace1)
            (λ ns' trace2 e2.
              Ends-ok (record n { publishers = ps } ∷ ns') trace2 (omega (arith, e1, e2))))

  round_of-Grows :
      (j : ℕ) (ps : List RawPublisher) (trace : Trace)
      → Ends (Grows published_of (published_of ps) trace) (round_of cyclone bits j ps trace)
  unfolding round_of published_of
  round_of-Grows j [] trace = Ends-ok [] trace refl
  round_of-Grows zero (p ∷ ps) trace = elim (Bool-cases (is_positive p.rate_hz)) [
    | inl periodic ↦ rw periodic (
        Ends-then (publish_once cyclone bits p trace) (publish_once-Grows p trace)
          (λ p' trace1 e1. Ends-ok (p' ∷ ps) trace1 (omega (arith, e1))))
    | inr once ↦ rw once (Ends-ok (p ∷ ps) trace refl)
  ]
  round_of-Grows (suc j) (p ∷ ps) trace =
      Ends-then (round_of cyclone bits j ps trace) (round_of-Grows j ps trace)
        (λ ps' trace1 e1. Ends-ok (p ∷ ps') trace1 (omega (arith, e1)))

  thread_round-Grows :
      (i j : ℕ) (ns : List NodeEntry) (trace : Trace)
      → Ends
          (Grows total_published (total_published ns) trace)
          (thread_round cyclone bits i j ns trace)
  unfolding thread_round total_published
  thread_round-Grows i j [] trace = Ends-ok [] trace refl
  thread_round-Grows zero j (n ∷ ns) trace =
      Ends-then (round_of cyclone bits j n.publishers trace) (round_of-Grows j n.publishers trace)
        (λ ps trace1 e1. Ends-ok (record n { publishers = ps } ∷ ns) trace1 (omega (arith, e1)))
  thread_round-Grows (suc i) j (n ∷ ns) trace =
      Ends-then (thread_round cyclone bits i j ns trace) (thread_round-Grows i j ns trace)
        (λ ns' trace1 e1. Ends-ok (n ∷ ns') trace1 (omega (arith, e1)))

  dispatch-published :
      (i j : ℕ) (payloads : List Bytes) (ns : List NodeEntry)
      → total_published (
          update_at
            (λ n. record n { subscriptions = update_at (dispatch_raw payloads) j n.subscriptions })
            i
            ns)
        ≡ total_published ns
  unfolding total_published
  dispatch-published i j payloads [] = refl
  dispatch-published zero j payloads (n ∷ ns) = refl
  dispatch-published (suc i) j payloads (n ∷ ns) =
      ap (λ t. published_of n.publishers + t) (dispatch-published i j payloads ns)

  Step-published :
      (s t : Running)
      → Step cyclone bits s t
      → SameCount
          (total_published t.nodes + taken_samples cyclone s.trace)
          (total_published s.nodes + taken_samples cyclone t.trace)
  Step-published s t (round i j running e) = Ends-at (thread_round-Grows i j s.nodes s.trace) e
  Step-published s t (dispatch i j payloads) = rw (dispatch-published i j payloads s.nodes)
  Step-published s t stop = refl

  -- After start_publishing and any rounds of the publishing threads, dispatches and the stop, in
  -- any order, the counters of all publishers have grown by the number of samples that
  -- CycloneDDS has taken since, up to multiples of 2 ^ 64.
  pub Reach-published :
      (first : Trace) (nodes : List NodeEntry) (s t : Running)
      → start_publishing cyclone bits nodes first ≡ (s.trace, ok s.nodes)
      → Reach cyclone bits s t
      → SameCount
          (total_published t.nodes + taken_samples cyclone first)
          (total_published nodes + taken_samples cyclone t.trace)
  Reach-published first nodes s t e start = Ends-at (start_publishing-Grows nodes first) e
  Reach-published first nodes s t e (later {t = m} r st) =
      omega (arith, Reach-published first nodes s m e r, Step-published m t st)
