-- ===== src/Dds/Alive.antt =====
-- What the constructors and destructors of src/rcllite/dds/entities.cpp leave alive in CycloneDDS,
-- as a trace of calls shows it.
use rcllite.Prelude.{
  ℕ, suc, ◌-◌, ◌≡◌, ◌≢◌, refl, ap, ◌∙◌, length, arith, List, [], ◌∷◌, Bytes, All, Result, ok, err,
  Bool, true, false, ◌==◌, if◌then◌else◌,
}
use rcllite.Dds.Qos.{Qos}
use rcllite.Dds.Config.{Environment, Context}
use rcllite.Dds.Calls.{
  Call, create_qos, delete_qos, create_readcondition, delete, create_topic_sertype, create_writer,
  create_reader, Answer, value, precondition_not_met, failed, Trace, Cyclone,
}
use rcllite.Dds.Entities.{
  Writer, Reader, make_participant, make_domain, make_endpoints, make_writer, make_reader,
  delete_writer, delete_reader,
}

-- The handle in front of those that are alive already, if there is one.
abbrev with_answer : Answer → List ℕ → List ℕ
with_answer (value h) hs = h ∷ hs
with_answer precondition_not_met hs = hs
with_answer failed hs = hs

abbrev pub answered_ok : Answer → Bool
answered_ok (value h) = true
answered_ok _ = false

abbrev without_first : ℕ → List ℕ → List ℕ
without_first h [] = []
without_first h (k ∷ hs) = let rest = without_first h hs in if k == h then hs else k ∷ rest

-- An object at the end of its scope: what was made is deleted, and nothing where the constructor
-- threw, since no destructor runs then.
unfoldable pub writer_scope : Trace × Result Writer → Trace
unfolding delete_writer
writer_scope (trace, ok w) = (delete_writer w trace).0
writer_scope (trace, err e) = trace

unfoldable pub reader_scope : Trace × Result Reader → Trace
unfolding delete_reader
reader_scope (trace, ok r) = (delete_reader r trace).0
reader_scope (trace, err e) = trace

module _ (cyclone : Cyclone) where
  -- The writers, readers and read conditions that are alive, the newest first.
  unfoldable pub endpoints : Trace → List ℕ
  endpoints [] = []
  endpoints (create_writer p t q ∷ trace) =
      with_answer (cyclone trace (create_writer p t q)) (endpoints trace)
  endpoints (create_reader p t q ∷ trace) =
      with_answer (cyclone trace (create_reader p t q)) (endpoints trace)
  endpoints (create_readcondition r ∷ trace) =
      with_answer (cyclone trace (create_readcondition r)) (endpoints trace)
  endpoints (delete h ∷ trace) = without_first h (endpoints trace)
  endpoints (_ ∷ trace) = endpoints trace

  -- The topics.
  unfoldable pub topics : Trace → List ℕ
  topics [] = []
  topics (create_topic_sertype p t s ∷ trace) =
      with_answer (cyclone trace (create_topic_sertype p t s)) (topics trace)
  topics (delete h ∷ trace) = without_first h (topics trace)
  topics (_ ∷ trace) = topics trace

  -- The number of dds_qos_t that are allocated.
  unfoldable pub live_qos : Trace → ℕ
  live_qos [] = 0
  live_qos (create_qos ∷ trace) = elim (cyclone trace create_qos) [
    | value q ↦ suc (live_qos trace)
    | _ ↦ live_qos trace
  ]
  live_qos (delete_qos ∷ trace) = live_qos trace - 1
  live_qos (_ ∷ trace) = live_qos trace

  make_writer-live_qos :
      (participant publisher : ℕ) (topic type : Bytes) (qos : Qos) (trace : Trace)
      → live_qos (make_writer cyclone participant publisher topic type qos trace).0 ≡ live_qos trace
  unfolding make_writer live_qos
  make_writer-live_qos participant publisher topic type qos trace = ground arith

  pub make_reader-live_qos :
      (participant publisher : ℕ) (topic type : Bytes) (qos : Qos) (trace : Trace)
      → live_qos (make_reader cyclone participant publisher topic type qos trace).0 ≡ live_qos trace
  unfolding make_reader live_qos
  make_reader-live_qos participant publisher topic type qos trace = ground arith

  pub make_participant-live_qos :
      (env : Environment) (ctx : Context) (domain : ℕ) (enclave : Bytes) (trace : Trace)
      → live_qos (make_participant cyclone env ctx domain enclave trace).0 ≡ live_qos trace
  unfolding make_participant make_domain make_endpoints live_qos
  make_participant-live_qos env ctx domain enclave trace = ground arith

  -- Whatever CycloneDDS answers, the constructors of writers, readers and participants free each
  -- dds_qos_t that they allocate.
  pub constructors-live_qos :
      (p s : ℕ) (topic type : Bytes) (qos : Qos) (env : Environment) (ctx : Context) (trace : Trace)
      → (live_qos (make_writer cyclone p s topic type qos trace).0 ≡ live_qos trace)
        × (live_qos (make_reader cyclone p s topic type qos trace).0 ≡ live_qos trace)
        × (live_qos (make_participant cyclone env ctx p topic trace).0 ≡ live_qos trace)
  constructors-live_qos p s topic type qos env ctx trace = (
    make_writer-live_qos p s topic type qos trace,
    make_reader-live_qos p s topic type qos trace,
    make_participant-live_qos env ctx p topic trace,
  )

  -- Whatever CycloneDDS answers, a writer that goes out of scope, or whose constructor throws, leaves
  -- the endpoints as they were.
  pub make_writer-endpoints :
      (participant publisher : ℕ) (topic type : Bytes) (qos : Qos) (trace : Trace)
      → endpoints (writer_scope (make_writer cyclone participant publisher topic type qos trace))
        ≡ endpoints trace
  unfolding make_writer endpoints writer_scope
  make_writer-endpoints participant publisher topic type qos trace = ground arith

  -- So does a reader, where each read condition can be made.
  pub make_reader-endpoints :
      (participant subscriber : ℕ) (topic type : Bytes) (qos : Qos) (trace : Trace)
      → ((trace' : Trace) (rd : ℕ) → answered_ok (cyclone trace' (create_readcondition rd)) ≡ true)
      → endpoints (reader_scope (make_reader cyclone participant subscriber topic type qos trace))
        ≡ endpoints trace
  unfolding make_reader endpoints reader_scope
  make_reader-endpoints participant subscriber topic type qos trace h = grind arith

without_first_other : (h : ℕ) (hs : List ℕ) → All (λ k. k ≢ h) hs → without_first h hs ≡ hs
without_first_other h [] k = refl
without_first_other h (j ∷ hs) k = ground (arith, k.0, without_first_other h hs k.1)

module _ (cyclone : Cyclone) where
  one_more :
      (participant publisher : ℕ) (topic type : Bytes) (qos : Qos) (trace : Trace) (w : Writer)
      → (make_writer cyclone participant publisher topic type qos trace).1 ≡ ok w
      → length (topics cyclone (make_writer cyclone participant publisher topic type qos trace).0)
        ≡ suc (length (topics cyclone trace))
  unfolding make_writer topics
  one_more participant publisher topic type qos trace w made = ground arith

  deleted :
      {w : Writer} (made : Trace × Result Writer)
      → made.1 ≡ ok w
      → All (λ t. t ≢ w.wr) (topics cyclone made.0)
      → topics cyclone (writer_scope made) ≡ topics cyclone made.0
  unfolding topics writer_scope delete_writer
  deleted {w} (trace, ok v) e h = rw same_handle (without_first_other w.wr (topics cyclone trace) h)
    where
      same_handle : v.wr ≡ w.wr
      same_handle = cc
  deleted (trace, err x) e h = refl

  -- A writer that was made and goes out of scope leaves one more topic, if its handle is no topic's.
  pub make_writer-topics :
      (participant publisher : ℕ) (topic type : Bytes) (qos : Qos) (trace : Trace) (w : Writer)
      → (make_writer cyclone participant publisher topic type qos trace).1 ≡ ok w
      → All
          (λ t. t ≢ w.wr)
          (topics cyclone (make_writer cyclone participant publisher topic type qos trace).0)
      → length (
          topics cyclone
            (writer_scope (make_writer cyclone participant publisher topic type qos trace)))
        ≡ suc (length (topics cyclone trace))
  unfolding writer_scope
  make_writer-topics participant publisher topic type qos trace w made apart =
      ap length
        (deleted (make_writer cyclone participant publisher topic type qos trace) made apart)
      ∙ one_more participant publisher topic type qos trace w made

abbrev pub is_condition : Call → Bool
is_condition (create_readcondition rd) = true
is_condition _ = false

module _ (cyclone : Cyclone)
    (made : (trace : Trace) (c : Call)
      → is_condition c ≡ false
      → answered_ok (cyclone trace c) ≡ true)
    (refused : (trace : Trace) (rd : ℕ)
      → answered_ok (cyclone trace (create_readcondition rd)) ≡ false) where
  -- On a CycloneDDS that refuses every read condition and nothing else, an attempt to make a
  -- reader leaves alive one more of the writers, readers and read conditions than before, and
  -- one more topic.
  pub make_reader_leaks :
      (participant subscriber : ℕ) (topic type : Bytes) (qos : Qos) (trace : Trace)
      → (length (
            endpoints cyclone
              (reader_scope (make_reader cyclone participant subscriber topic type qos trace)))
          ≡ suc (length (endpoints cyclone trace)))
        × (length (
              topics cyclone
                (reader_scope (make_reader cyclone participant subscriber topic type qos trace)))
            ≡ suc (length (topics cyclone trace)))
  unfolding make_reader endpoints topics reader_scope
  make_reader_leaks participant subscriber topic type qos trace = (grind arith, grind arith)
