-- ===== src/Graph/Poll.antt =====
-- The poll functions and run() of GraphMonitor::Impl (src/rcllite/graph.cpp).
use rcllite.Prelude.{
  ℕ, suc, ◌+◌, Bool, true, false, Option, none, some, List, [], ◌∷◌, ◌++◌, Bytes, text, take, drop,
  length, ltb, same_text, if◌then◌else◌, Result, ok, ◌>>=◌,
}
use rcllite.Prelude.OrderedMap
use rcllite.Prelude.OrderedMap.{OrderedMap, text_key}
use rcllite.Names.Search.{find_text, find_byte}
use rcllite.Message.{Message}
use rcllite.Cdr.Reader.{new_reader}
use rcllite.Graph.State.{Guid, EndpointInfo, ParticipantEntitiesInfo, Log, Monitor, max_logs}

-- "enclave=/ns/name;" to "/ns/name". The rest of the text counts where there is no semicolon.
abbrev up_to : Option ℕ → Bytes → Bytes
up_to none s = s
up_to (some semi) s = take semi s

abbrev enclave_at : Option ℕ → Bytes → Bytes
enclave_at none user_data = []
enclave_at (some begin) user_data =
    let behind = drop (begin + length (text "enclave=")) user_data in
    up_to (find_byte b';' behind) behind

unfoldable pub parse_enclave : Bytes → Bytes
unfolding find_text find_byte
parse_enclave user_data = enclave_at (find_text (text "enclave=") user_data) user_data

-- A sample of the built-in participant topic. `user_data` is `none` where the QoS has none.
pub record ParticipantSample : Type 0 where
  pub key : Guid
  pub alive : Bool
  pub user_data : Option Bytes

abbrev enclave_of : Option Bytes → Bytes
enclave_of none = []
enclave_of (some user_data) = parse_enclave user_data

-- The loop that erases the endpoints of a participant.
unfoldable pub erase_endpoints_of :
    Guid → OrderedMap Guid EndpointInfo → OrderedMap Guid EndpointInfo
erase_endpoints_of key [] = []
erase_endpoints_of key ((guid, info) ∷ es) =
    let rest = erase_endpoints_of key es in
    if same_text info.participant key then rest else (guid, info) ∷ rest

unfoldable pub poll_participant : ParticipantSample → Monitor → Monitor
unfolding erase_endpoints_of
poll_participant sample m =
    if sample.alive
    then record m {
      participants = OrderedMap.insert sample.key (enclave_of sample.user_data) m.participants;
    }
    else record m {
      participants = OrderedMap.erase sample.key m.participants;
      discovery = OrderedMap.erase sample.key m.discovery;
      endpoints = erase_endpoints_of sample.key m.endpoints;
    }

unfoldable pub poll_participants : List ParticipantSample → Monitor → Monitor
poll_participants [] m = m
poll_participants (sample ∷ samples) m = poll_participants samples (poll_participant sample m)

-- A sample of a built-in endpoint topic; a null name is the empty text.
pub record EndpointSample : Type 0 where
  pub key : Guid
  pub alive : Bool
  pub participant_key : Guid
  pub topic_name : Bytes
  pub type_name : Bytes

unfoldable pub poll_endpoint : Bool → EndpointSample → Monitor → Monitor
poll_endpoint writer sample m =
    if sample.alive
    then (let info : EndpointInfo = record {
      participant = sample.participant_key;
      topic = sample.topic_name;
      type = sample.type_name;
      writer = writer;
    } in
        record m { endpoints = OrderedMap.insert sample.key info m.endpoints })
    else record m { endpoints = OrderedMap.erase sample.key m.endpoints }

unfoldable pub poll_builtin : Bool → List EndpointSample → Monitor → Monitor
poll_builtin writer [] m = m
poll_builtin writer (sample ∷ samples) m =
    poll_builtin writer samples (poll_endpoint writer sample m)

-- discovery[key] = msg, with the first 16 bytes of the Gid for a key.
unfoldable pub keep_discovery : Option ParticipantEntitiesInfo → Monitor → Monitor
keep_discovery none m = m
keep_discovery (some msg) m = record m {
  discovery = OrderedMap.insert (take 16 msg.gid) msg m.discovery;
}

-- while (logs.size() > kMaxLogs) logs.pop_front(); one round for each log is enough.
unfoldable pub pop_front : List Log → List Log
pop_front [] = []
pop_front (log ∷ logs) =
    let rest = pop_front logs in if ltb max_logs (suc (length logs)) then rest else log ∷ logs

unfoldable pub keep_log : Option Log → Monitor → Monitor
keep_log none m = m
keep_log (some msg) m = record m { logs = pop_front (m.logs ++ (msg ∷ [])) }

module _ (infos : Message ParticipantEntitiesInfo) (log : Message Log) where
  -- The payloads that Reader::take hands over. The reader's constructor and deserialize throw on a
  -- malformed one, and nothing catches that.
  unfoldable pub poll_discovery : List Bytes → Monitor → Result Monitor
  poll_discovery [] m = ok m
  poll_discovery (payload ∷ rest) m = do
    r ← new_reader payload
    (msg, end) ← infos.deserialize r
    poll_discovery rest (keep_discovery msg m)

  unfoldable pub poll_rosout : List Bytes → Monitor → Result Monitor
  poll_rosout [] m = ok m
  poll_rosout (payload ∷ rest) m = do
    r ← new_reader payload
    (msg, end) ← log.deserialize r
    poll_rosout rest (keep_log msg m)

  -- A slot that the waitset reports, with what is taken from it.
  pub data Slot : Type 0 where
    stop_slot : Bool → Slot
    participant_slot : List ParticipantSample → Slot
    publication_slot : List EndpointSample → Slot
    subscription_slot : List EndpointSample → Slot
    discovery_slot : List Bytes → Slot
    rosout_slot : List Bytes → Slot
    other_slot : Slot

  -- The switch of run(), with whether the loop goes on.
  unfoldable pub poll_slot : Slot → Monitor → Result (Monitor × Bool)
  poll_slot (stop_slot taken) m = ok (m, if taken then false else true)
  poll_slot (participant_slot samples) m = ok (poll_participants samples m, true)
  poll_slot (publication_slot samples) m = ok (poll_builtin true samples m, true)
  poll_slot (subscription_slot samples) m = ok (poll_builtin false samples m, true)
  poll_slot (discovery_slot payloads) m = do m' ← poll_discovery payloads m; ok (m', true)
  poll_slot (rosout_slot payloads) m = do m' ← poll_rosout payloads m; ok (m', true)
  poll_slot other_slot m = ok (m, true)

  -- The slots that are reported while the loop runs, in order.
  unfoldable pub run : List Slot → Monitor → Result Monitor
  run [] m = ok m
  run (slot ∷ slots) m = do
    (m', goes_on) ← poll_slot slot m
    if goes_on then run slots m' else ok m'
