-- ===== src/Node/Announced.antt =====
-- What the constructor of class Node (src/rcllite/node.cpp) has said of the node when it returns.
use rcllite.Prelude.{ℕ, ◌≡◌, arith, Option, some, List, [], ◌∷◌, Bytes, ok, if◌then◌else◌}
use mathlib.Core.Option
use rcllite.Names.Search.{is_empty, slash}
use rcllite.Message.{Message}
use rcllite.Cdr.Writer.{payload, new_writer}
use rcllite.Dds.Serdata.{raw_serdata_from_blob}
use rcllite.Dds.Qos.{Qos}
use rcllite.Dds.Calls.{Trace, Cyclone, sent}
use rcllite.Dds.Entities.{make_writer, write}
use rcllite.Node.Endpoints.{Publisher, publish}
use rcllite.Graph.State.{ParticipantEntitiesInfo}
use rcllite.Node.Construct.{discovery_info}

-- The sample of a message, in front of those before.
abbrev pub with_sample : {A : Type 0} → ℕ → Message A → A → List Bytes → Option (List Bytes)
with_sample bits message msg before =
    Option.map (λ d. d ∷ before)
      (raw_serdata_from_blob bits (payload (message.serialize msg new_writer)))

make_writer-sent :
    (cyclone : Cyclone) (p s : ℕ) (topic type : Bytes) (qos : Qos) (trace : Trace)
    → sent (make_writer cyclone p s topic type qos trace).0 ≡ sent trace
unfolding make_writer sent
make_writer-sent cyclone p s topic type qos trace = ground arith

module _ {A : Type 0} (cyclone : Cyclone) (bits : ℕ) (message : Message A) where
  pub publish-sent :
      (msg : A) (p : Publisher) (trace : Trace)
      → (publish cyclone bits message msg p trace).1 ≡ ok tt
      → some (sent (publish cyclone bits message msg p trace).0)
        ≡ with_sample bits message msg (sent trace)
  unfolding publish write sent
  publish-sent msg p trace e = ground arith

module _ (cyclone : Cyclone) (bits : ℕ) (type : Bytes)
    (message : Message ParticipantEntitiesInfo) where
  -- One more sample, which names the node.
  Announced : Bytes → Bytes → Trace → {A : Type 0} → A → Trace → Type 0
  Announced name ns trace a trace' =
      (guid : ℕ) × (some (sent trace')
        ≡ with_sample bits message (discovery_info guid name ns) (sent trace))

  -- The namespace that the node takes.
  abbrev pub ns_of : Bytes → Bytes
  ns_of namespace_ = if is_empty namespace_ then slash ∷ [] else namespace_
