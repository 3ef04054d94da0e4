-- ===== src/Dds/Take.antt =====
-- dds::Reader::take of src/rcllite/dds/entities.hpp, and the dispatch of src/rcllite/subscription.hpp
-- that runs on it. CycloneDDS is a function: what dds_takecdr does to a reader's state.
use rcllite.Prelude.{
  ℕ, zero, suc, ◌+◌, Bool, Option, none, some, List, [], ◌∷◌, ◌++◌, Bytes, length, ltb,
  if◌then◌else◌, Result, ok, err, Error, internal_error, ◌>>=◌,
}
use rcllite.Message.{Message}
use rcllite.Cdr.Reader.{new_reader}

-- A sample that is taken: whether it has data, and its payload.
pub record Sample : Type 0 where
  pub valid_data : Bool
  pub payload : Bytes

-- The payloads that the inner loop hands to its function.
unfoldable pub handed : List Sample → List Bytes
handed [] = []
handed (s ∷ samples) = let rest = handed samples in if s.valid_data then s.payload ∷ rest else rest

abbrev pub take_failed : Error
take_failed = internal_error "dds_takecdr failed: {}" []

-- How a take ends: the reader's state, the payloads that were handed over, and the number of
-- samples, or the error. `none` is a take that has not ended within `fuel` rounds.
pub record Taken (S : Type 0) : Type 0 where
  pub state : S
  pub payloads : List Bytes
  pub outcome : Option (Result ℕ)

module _ {S : Type 0} (dds_takecdr : S → S × Option (List Sample)) where
  unfoldable pub take : ℕ → S → List Bytes → ℕ → Taken S
  take zero s payloads total = record { state = s; payloads = payloads; outcome = none }
  take (suc fuel) s payloads total = elim (dds_takecdr s).1 [
    | none ↦ record {
      state = (dds_takecdr s).0;
      payloads = payloads;
      outcome = some (err take_failed);
    }
    | some batch ↦
        let now = payloads ++ handed batch in
        let count = total + length batch in
        let rest = take fuel (dds_takecdr s).0 now count in
        if ltb (length batch) 16
        then record { state = (dds_takecdr s).0; payloads = now; outcome = some (ok count) }
        else rest
  ]

-- One round of Subscription::dispatch: the message that the callback is called with, if any. What
-- the callback throws is logged, as is a malformed sample.
abbrev delivered : {A : Type 0} → Result (Option A) → List A
delivered (ok none) = []
delivered (ok (some msg)) = msg ∷ []
delivered (err e) = []

module _ {A : Type 0} (message : Message A) where
  unfoldable pub read_message : Bytes → Result (Option A)
  read_message payload = do r ← new_reader payload; (msg, end) ← message.deserialize r; ok msg

  -- The messages that the callback of a subscription sees.
  unfoldable pub dispatch : List Bytes → List A
  unfolding read_message
  dispatch [] = []
  dispatch (payload ∷ rest) = delivered (read_message payload) ++ dispatch rest
