-- ===== src/Graph/Bounds.antt =====
-- The ring of log records of src/rcllite/graph.cpp.
use rcllite.Prelude.{
  ℕ, suc, ◌-◌, ◌≤◌, ◌≡◌, refl, arith, Bool, true, false, Option, none, some, List, [], ◌∷◌, ◌++◌,
  Bytes, Result, ok, err, ◌>>=◌, drop, length, length-drop, ltb, Bool-cases, inl, inr, Ensures,
  Ensures-ok, Ensures-bind, Ensures-then, Ensures-if,
}
use rcllite.Message.{Message}
use rcllite.Cdr.Reader.{new_reader}
use rcllite.Graph.State.{Monitor, Log, ParticipantEntitiesInfo, max_logs}
use rcllite.Graph.Poll.{
  ParticipantSample, EndpointSample, poll_participant, poll_participants, poll_endpoint,
  poll_builtin, keep_discovery, pop_front, keep_log, poll_discovery, poll_rosout, Slot, stop_slot,
  participant_slot, publication_slot, subscription_slot, discovery_slot, rosout_slot, other_slot,
  poll_slot, run,
}

-- The loop keeps the newest.
pub pop_front-drop : (logs : List Log) → pop_front logs ≡ drop (length logs - max_logs) logs
unfolding pop_front
pop_front-drop [] = refl
pop_front-drop (log ∷ logs) = elim (Bool-cases (ltb max_logs (suc (length logs)))) [
  | inl over ↦ rw (over, pop_front-drop logs) (one_more (length logs) (ground (arith, over)))
  | inr fits ↦ rw fits (none_left (length logs) (ground (arith, fits)))
]
  where
    one_more :
        (n : ℕ) → max_logs ≤ n → drop (n - max_logs) logs ≡ drop (suc n - max_logs) (log ∷ logs)
    one_more n h = rw (shift n h) refl
      where
        shift : (n : ℕ) → max_logs ≤ n → suc n - max_logs ≡ suc (n - max_logs)
        shift n h = omega arith

    none_left : (n : ℕ) → suc n ≤ max_logs → log ∷ logs ≡ drop (suc n - max_logs) (log ∷ logs)
    none_left n h = rw (zero_left n h) refl
      where
        zero_left : (n : ℕ) → suc n ≤ max_logs → suc n - max_logs ≡ 0
        zero_left n h = omega arith

abbrev pub IsBounded : Monitor → Type 0
IsBounded m = length m.logs ≤ max_logs

keep_log-IsBounded : (msg : Option Log) (m : Monitor) → IsBounded m → IsBounded (keep_log msg m)
unfolding keep_log
keep_log-IsBounded none m h = h
keep_log-IsBounded (some msg) m h =
    rw (pop_front-drop (m.logs ++ (msg ∷ [])))
      (omega (arith, length-drop (length (m.logs ++ (msg ∷ [])) - max_logs) (m.logs ++ (msg ∷ []))))

keep_discovery-IsBounded :
    (msg : Option ParticipantEntitiesInfo) (m : Monitor)
    → IsBounded m
    → IsBounded (keep_discovery msg m)
unfolding keep_discovery
keep_discovery-IsBounded none m h = h
keep_discovery-IsBounded (some msg) m h = h

poll_participants-logs :
    (samples : List ParticipantSample) (m : Monitor) → (poll_participants samples m).logs ≡ m.logs
unfolding poll_participants poll_participant
poll_participants-logs [] m = refl
poll_participants-logs (s ∷ samples) m =
    ground (arith, poll_participants-logs samples (poll_participant s m))

poll_builtin-logs :
    (w : Bool) (samples : List EndpointSample) (m : Monitor)
    → (poll_builtin w samples m).logs ≡ m.logs
unfolding poll_builtin poll_endpoint
poll_builtin-logs w [] m = refl
poll_builtin-logs w (s ∷ samples) m =
    ground (arith, poll_builtin-logs w samples (poll_endpoint w s m))

with_flag :
    (r : Result Monitor)
    → Ensures IsBounded r
    → Ensures {A = Monitor × Bool} (λ x. IsBounded x.0) (r >>= λ m'. ok (m', true))
with_flag (ok m) h = Ensures-ok _ (h.holds m refl)
with_flag (err e) h = record { holds = λ x p. cc }

module _ (infos : Message ParticipantEntitiesInfo) (log : Message Log) where
  poll_discovery-IsBounded :
      (payloads : List Bytes) (m : Monitor)
      → IsBounded m
      → Ensures IsBounded (poll_discovery infos log payloads m)
  unfolding poll_discovery
  poll_discovery-IsBounded [] m h = Ensures-ok m h
  poll_discovery-IsBounded (payload ∷ rest) m h = Ensures-bind (new_reader payload) λ r.
      Ensures-bind (infos.deserialize r)
        λ d. poll_discovery-IsBounded rest _ (keep_discovery-IsBounded d.0 m h)

  poll_rosout-IsBounded :
      (payloads : List Bytes) (m : Monitor)
      → IsBounded m
      → Ensures IsBounded (poll_rosout infos log payloads m)
  unfolding poll_rosout
  poll_rosout-IsBounded [] m h = Ensures-ok m h
  poll_rosout-IsBounded (payload ∷ rest) m h = Ensures-bind (new_reader payload) λ r.
      Ensures-bind (log.deserialize r)
        λ d. poll_rosout-IsBounded rest _ (keep_log-IsBounded d.0 m h)

  poll_slot-IsBounded :
      (slot : Slot infos log) (m : Monitor)
      → IsBounded m
      → Ensures (λ r. IsBounded r.0) (poll_slot infos log slot m)
  unfolding poll_slot
  poll_slot-IsBounded (stop_slot taken) m h = Ensures-ok _ h
  poll_slot-IsBounded (participant_slot samples) m h =
      Ensures-ok _ (rw (poll_participants-logs samples m) h)
  poll_slot-IsBounded (publication_slot samples) m h =
      Ensures-ok _ (rw (poll_builtin-logs true samples m) h)
  poll_slot-IsBounded (subscription_slot samples) m h =
      Ensures-ok _ (rw (poll_builtin-logs false samples m) h)
  poll_slot-IsBounded (discovery_slot payloads) m h =
      with_flag (poll_discovery infos log payloads m) (poll_discovery-IsBounded payloads m h)
  poll_slot-IsBounded (rosout_slot payloads) m h =
      with_flag (poll_rosout infos log payloads m) (poll_rosout-IsBounded payloads m h)
  poll_slot-IsBounded other_slot m h = Ensures-ok _ h

  run-IsBounded :
      (slots : List (Slot infos log)) (m : Monitor)
      → IsBounded m
      → Ensures IsBounded (run infos log slots m)
  unfolding run
  run-IsBounded [] m h = Ensures-ok m h
  run-IsBounded (slot ∷ slots) m h =
      Ensures-then (poll_slot infos log slot m) (poll_slot-IsBounded slot m h)
        λ r b. Ensures-if r.1 (run-IsBounded slots r.0 b) (Ensures-ok r.0 b)

  -- A monitor that starts with at most 512 log records has at most 512 after any slots that
  -- run() works through without an exception.
  pub run-logs :
      (slots : List (Slot infos log)) (m m' : Monitor)
      → length m.logs ≤ 512
      → run infos log slots m ≡ ok m'
      → length m'.logs ≤ 512
  run-logs slots m m' h e = (run-IsBounded slots m h).holds m' e
