-- ===== src/Graph/Construct.antt =====
-- The constructor and the destructor of GraphMonitor::Impl (src/rcllite/graph.cpp), with the calls of
-- CycloneDDS that they make.
use rcllite.Prelude.{
  ℕ, Option, some, List, [], ◌∷◌, Bytes, text, Result, ok, err, Error, internal_error,
}
use rcllite.Names.Maps.{ros_to_dds_topic_name}
use rcllite.Cdr.Endian.{le_bytes}
use rcllite.Dds.Qos.{Qos, default_qos, keep_last, set_transient_local}
use rcllite.Dds.Config.{Environment, Context}
use rcllite.Dds.Calls.{
  create_builtin_reader, create_readcondition, create_waitset, get_guid, delete, Answer, value,
  precondition_not_met, failed, Io, Cyclone, ◌>>=◌, return, lift, ask, handle_of, call, perform,
  on_throw,
}
use rcllite.Dds.Entities.{
  Participant, Reader, make_participant, delete_participant, make_reader, delete_reader, make_guard,
  delete_guard, trigger,
}
use rcllite.Executor.Construct.{attach_all}
use rcllite.Graph.State.{Guid, Monitor, max_logs}

-- A monitor with what it owns, before its thread starts; a read condition that could not be made
-- is none.
pub record MonitorOwner : Type 0 where
  pub ppant : Participant
  pub bi_part : ℕ
  pub bi_pub : ℕ
  pub bi_sub : ℕ
  pub rc_part : Option ℕ
  pub rc_pub : Option ℕ
  pub rc_sub : Option ℕ
  pub discovery_rd : Reader
  pub rosout_rd : Reader
  pub stop_guard : ℕ
  pub waitset : ℕ
  pub monitor : Monitor

-- The numbers of the built-in topics.
pub record BuiltinTopics : Type 0 where
  pub participant : ℕ
  pub publication : ℕ
  pub subscription : ℕ

-- self_guid stays zero where dds_get_guid fails. A guid is the number that its 16 bytes spell.
abbrev self_guid_of : Answer → Guid
self_guid_of (value guid) = le_bytes 16 guid
self_guid_of precondition_not_met = le_bytes 16 0
self_guid_of failed = le_bytes 16 0

abbrev pub fresh_monitor : Guid → Monitor
fresh_monitor self_guid = record {
  self_guid = self_guid;
  participants = [];
  endpoints = [];
  discovery = [];
  logs = [];
}

-- The three tests come behind the three calls.
abbrev pub all_made : Option ℕ → Option ℕ → Option ℕ → Result (ℕ × ℕ × ℕ)
all_made (some a) (some b) (some c) = ok (a, b, c)
all_made _ _ _ = err (internal_error "failed to create built-in topic readers" [])

abbrev pub latched : ℕ → Qos
latched depth = keep_last depth (set_transient_local default_qos)

-- Members go in the reverse order of their declarations.
abbrev pub delete_members : ℕ → List Reader → Io (Unit {0})
delete_members stop_guard [] = delete_guard stop_guard
delete_members stop_guard (r ∷ rs) = do u ← delete_members stop_guard rs; delete_reader r

abbrev pub set_up_failed : Error
set_up_failed = internal_error "failed to set up the graph waitset" []

-- What is attached to the waitset, with kStopSlot and the others.
abbrev pub slots : ℕ → Option ℕ → Option ℕ → Option ℕ → Reader → Reader → List (Option ℕ × ℕ)
slots stop_guard rc_part rc_pub rc_sub discovery_rd rosout_rd =
    (some stop_guard, 1)
    ∷ (rc_part, 2)
    ∷ (rc_pub, 3)
    ∷ (rc_sub, 4)
    ∷ (some discovery_rd.rc, 5)
    ∷ (some rosout_rd.rc, 6)
    ∷ []

abbrev pub owner :
    Participant
    → ℕ × ℕ × ℕ
    → Option ℕ × Option ℕ × Option ℕ
    → Reader
    → Reader
    → ℕ
    → Answer
    → ℕ
    → MonitorOwner
owner ppant readers conditions disc logs stop_guard guid ws = record {
  ppant = ppant;
  bi_part = readers.0;
  bi_pub = readers.1;
  bi_sub = readers.2;
  rc_part = conditions.0;
  rc_pub = conditions.1;
  rc_sub = conditions.2;
  discovery_rd = disc;
  rosout_rd = logs;
  stop_guard = stop_guard;
  waitset = ws;
  monitor = fresh_monitor (self_guid_of guid);
}

module _ (cyclone : Cyclone) (topics : BuiltinTopics) (info_type log_type : Bytes) where
  unfoldable pub set_up_waitset : ℕ → Option ℕ → Option ℕ → Option ℕ → Reader → Reader → Io ℕ
  unfolding attach_all
  set_up_waitset stop_guard rc_part rc_pub rc_sub discovery_rd rosout_rd = do
    ws ← call cyclone create_waitset set_up_failed
    u ←
        attach_all cyclone set_up_failed ws
          (slots stop_guard rc_part rc_pub rc_sub discovery_rd rosout_rd)
    return ws

  -- The read conditions of the built-in topics.
  unfoldable pub make_conditions : ℕ × ℕ × ℕ → Io ((ℕ × ℕ × ℕ) × (Option ℕ × Option ℕ × Option ℕ))
  make_conditions (bi_part, bi_pub, bi_sub) = do
    rc_part ← ask cyclone (create_readcondition bi_part)
    rc_pub ← ask cyclone (create_readcondition bi_pub)
    rc_sub ← ask cyclone (create_readcondition bi_sub)
    return ((bi_part, bi_pub, bi_sub), (handle_of rc_part, handle_of rc_pub, handle_of rc_sub))

  -- The readers of the built-in topics, and their conditions.
  unfoldable pub make_builtin : Participant → Io ((ℕ × ℕ × ℕ) × (Option ℕ × Option ℕ × Option ℕ))
  unfolding make_conditions
  make_builtin ppant = do
    part ← ask cyclone (create_builtin_reader ppant.handle topics.participant)
    publ ← ask cyclone (create_builtin_reader ppant.handle topics.publication)
    subs ← ask cyclone (create_builtin_reader ppant.handle topics.subscription)
    made ← lift (all_made (handle_of part) (handle_of publ) (handle_of subs))
    make_conditions made

  -- The body of the constructor.
  unfoldable pub construct_readers : Participant → ℕ → Io MonitorOwner
  unfolding set_up_waitset make_builtin
  construct_readers ppant stop_guard = do
    guid ← ask cyclone (get_guid ppant.handle)
    (readers, conditions) ← on_throw (delete_members stop_guard []) (make_builtin ppant)
    disc ← on_throw (delete_members stop_guard []) (
        make_reader cyclone ppant.handle ppant.subscriber (text "ros_discovery_info") info_type
          (latched 1))
    topic ← lift (ros_to_dds_topic_name (text "/rosout"))
    logs ←
        on_throw (delete_members stop_guard (disc ∷ []))
          (make_reader cyclone ppant.handle ppant.subscriber topic log_type (latched max_logs))
    ws ←
        on_throw (delete_members stop_guard (disc ∷ logs ∷ []))
          (set_up_waitset stop_guard conditions.0 conditions.1 conditions.2 disc logs)
    return (owner ppant readers conditions disc logs stop_guard guid ws)

  -- `ctx` is Context::instance().
  unfoldable pub construct_monitor : Environment → Context → Io MonitorOwner
  unfolding construct_readers
  construct_monitor env ctx = do
    ppant ← make_participant cyclone env ctx ctx.domain_id []
    stop_guard ← on_throw (delete_participant ppant) (make_guard cyclone)
    on_throw (delete_participant ppant) (construct_readers ppant stop_guard)

-- The destructor; `joined` are the calls of the thread between the trigger and its end.
unfoldable pub delete_monitor : Io (Unit {0}) → MonitorOwner → Io (Unit {0})
delete_monitor joined m = do
  u ← trigger m.stop_guard
  v ← joined
  w ← perform (delete m.waitset)
  x ← delete_members m.stop_guard (m.discovery_rd ∷ m.rosout_rd ∷ [])
  delete_participant m.ppant
