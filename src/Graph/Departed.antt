-- ===== src/Graph/Departed.antt =====
-- What a participant that leaves takes with it (src/rcllite/graph.cpp).
use rcllite.Prelude.{
  false, none, some, [], ◌∷◌, ◌≡◌, ◌≢◌, refl, arith, same_text, same_text_iff, Bool-cases, inl, inr,
}
use rcllite.Prelude.OrderedMap
use rcllite.Prelude.OrderedMap.{OrderedMap, text_key, find-erase, same_refl}
use rcllite.Graph.State.{Guid, EndpointInfo, Monitor}
use rcllite.Graph.Poll.{ParticipantSample, erase_endpoints_of, poll_participant}

-- Nothing of the participant is left.
pub record IsGone (key : Guid) (m : Monitor) : Type 0 where
  pub no_participant : OrderedMap.find key m.participants ≡ none
  pub no_discovery : OrderedMap.find key m.discovery ≡ none
  pub no_endpoint :
      (guid : Guid) (info : EndpointInfo)
      → OrderedMap.find guid m.endpoints ≡ some info
      → info.participant ≢ key

none_found :
    (key : Guid) (es : OrderedMap Guid EndpointInfo) (guid : Guid) (info : EndpointInfo)
    → OrderedMap.find guid (erase_endpoints_of key es) ≡ some info
    → info.participant ≢ key
unfolding erase_endpoints_of OrderedMap.find
none_found key [] guid info h = absurd (ground (arith, h))
none_found key ((g, i) ∷ es) guid info h = elim (Bool-cases (same_text i.participant key)) [
  | inl theirs ↦ none_found key es guid info (rw theirs at h)
  | inr other ↦
      ground
        (arith, rw other at h, none_found key es guid info, same_text_iff i.participant key, other)
]

still_found :
    (key : Guid) (es : OrderedMap Guid EndpointInfo) (guid : Guid) (info : EndpointInfo)
    → OrderedMap.find guid es ≡ some info
    → info.participant ≢ key
    → OrderedMap.find guid (erase_endpoints_of key es) ≡ some info
unfolding erase_endpoints_of OrderedMap.find
still_found key [] guid info h n = absurd (ground (arith, h))
still_found key ((g, i) ∷ es) guid info h n =
    ground (arith, h, still_found key es guid info, same_text_iff i.participant key)

-- After a sample that says that a participant has left, the monitor holds neither the
-- participant nor its discovery entry nor an endpoint of it, and finds every other participant,
-- discovery entry and endpoint as before.
pub poll_participant-IsGone :
    (sample : ParticipantSample) (m : Monitor)
    → sample.alive ≡ false
    → IsGone sample.key (poll_participant sample m)
      × ((guid : Guid) (info : EndpointInfo)
          → OrderedMap.find guid m.endpoints ≡ some info
          → info.participant ≢ sample.key
          → OrderedMap.find guid (poll_participant sample m).endpoints ≡ some info)
      × ((other : Guid)
          → other ≢ sample.key
          → (OrderedMap.find other (poll_participant sample m).participants
              ≡ OrderedMap.find other m.participants)
            × (OrderedMap.find other (poll_participant sample m).discovery
                ≡ OrderedMap.find other m.discovery))
unfolding poll_participant
poll_participant-IsGone sample m h = rw h (
  record {
    no_participant =
        rw (find-erase sample.key sample.key m.participants, same_refl sample.key) refl;
    no_discovery = rw (find-erase sample.key sample.key m.discovery, same_refl sample.key) refl;
    no_endpoint = none_found sample.key m.endpoints;
  },
  still_found sample.key m.endpoints,
  λ other n. (
    ground (arith, find-erase sample.key other m.participants, same_text_iff sample.key other),
    ground (arith, find-erase sample.key other m.discovery, same_text_iff sample.key other),
  ),
)
