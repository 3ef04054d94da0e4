-- ===== src/Dds/Config.antt =====
-- The configuration of src/rcllite/dds/entities.cpp: the environment, Context::configure, and the
-- text that a participant's domain is made with. A variable that is not set is `none`.
use rcllite.Prelude.{
  ℕ, ◌+◌, ◌-◌, ◌*◌, Bool, true, false, not, ◌&&◌, ◌||◌, Option, none, some, List, [], ◌∷◌, ◌++◌,
  Bytes, text, leb, ltb, ◌==◌, same_text, if◌then◌else◌, Result, ok, err, invalid_arguments,
}
use rcllite.Json.Escape.{decimal}
use rcllite.Names.Search.{is_empty}

abbrev is_digit : ℕ → Bool
is_digit c = leb b'0' c && leb c b'9'

-- std::isspace in the C locale.
abbrev is_space : ℕ → Bool
is_space c = c == 0x20 || (leb 0x09 c && leb c 0x0d)

-- The value of the digits in front; the first other character ends it.
unfoldable pub digits_value : ℕ → Bytes → ℕ
digits_value acc [] = acc
digits_value acc (c ∷ s) =
    let rest = digits_value (10 * acc + (c - b'0')) s in if is_digit c then rest else acc

-- What strtol(env, nullptr, 10) gives, if it is not negative, and whether it is. A value out of
-- range is clamped by strtol, and is out of range here too.
abbrev signed_value : Bytes → Bool × ℕ
signed_value [] = (false, 0)
signed_value (c ∷ s) =
    if c == b'-'
    then (true, digits_value 0 s)
    else if c == b'+'
    then (false, digits_value 0 s)
    else (false, digits_value 0 (c ∷ s))

unfoldable pub strtol : Bytes → Bool × ℕ
unfolding digits_value
strtol [] = (false, 0)
strtol (c ∷ s) = let rest = strtol s in if is_space c then rest else signed_value (c ∷ s)

abbrev domain_in_range : Bool × ℕ → ℕ
domain_in_range (negative, v) = if (negative && not (v == 0)) || ltb 232 v then 0 else v

unfoldable pub env_domain_id : Option Bytes → ℕ
unfolding strtol
env_domain_id none = 0
env_domain_id (some []) = 0
env_domain_id (some (c ∷ s)) = domain_in_range (strtol (c ∷ s))

unfoldable pub env_localhost_only : Option Bytes → Bool
env_localhost_only none = false
env_localhost_only (some s) = same_text s (text "1") || same_text s (text "true")

-- The variables that the process is started with.
pub record Environment : Type 0 where
  pub ros_domain_id : Option Bytes
  pub ros_localhost_only : Option Bytes
  pub cyclonedds_uri : Option Bytes

pub record DdsConfigOverrides : Type 0 where
  pub domain_id : Option ℕ
  pub config_xml : Bytes

pub record Context : Type 0 where
  pub domain_id : ℕ
  pub localhost_only : Bool
  pub config_xml : Bytes

-- g_ctx and g_cfg.
pub record Globals : Type 0 where
  pub ctx : Option Context
  pub cfg : Option DdsConfigOverrides

unfoldable pub configure : Option ℕ → Bytes → Globals → Globals × Result (Unit {0})
configure domain_id config_xml g = elim g.ctx [
  | some c ↦ (
    g,
    err (
        invalid_arguments "Context::configure must run before the first node creates the context"
          []),
  )
  | none ↦
      (record g { cfg = some (record { domain_id = domain_id; config_xml = config_xml }) }, ok tt)
]

abbrev overridden : Option DdsConfigOverrides → Context → Context
overridden none c = c
overridden (some o) c = record c {
  domain_id = elim o.domain_id [ none ↦ c.domain_id | some d ↦ d ];
  config_xml = o.config_xml;
}

-- The constructor of Context.
unfoldable pub new_context : Environment → Option DdsConfigOverrides → Context
unfolding env_domain_id env_localhost_only
new_context env cfg = overridden cfg (record {
  domain_id = env_domain_id env.ros_domain_id;
  localhost_only = env_localhost_only env.ros_localhost_only;
  config_xml = [];
})

-- Context::instance().
unfoldable pub instance_of : Environment → Globals → Globals × Context
unfolding new_context
instance_of env g = elim g.ctx [
  | some c ↦ (g, c)
  | none ↦ let c = new_context env g.cfg in (record g { ctx = some c }, c)
]

-- CycloneDDS tears its domain down when the process exits; nothing happens before.
abbrev shutdown : Globals → Globals
shutdown g = g

unfoldable pub default_config_xml : Environment → Bool → Bytes
default_config_xml env localhost_only = elim env.cyclonedds_uri [
  | some uri ↦ []
  | none ↦
      if not localhost_only
      then []
      else text "<CycloneDDS><Domain>"
        ++ text "<General><AllowMulticast>false</AllowMulticast></General>"
        ++ text "<Discovery>"
        ++ text "<ParticipantIndex>auto</ParticipantIndex>"
        ++ text "<MaxAutoParticipantIndex>32</MaxAutoParticipantIndex>"
        ++ text "<Peers><Peer address=\"localhost\"/></Peers>"
        ++ text "</Discovery></Domain></CycloneDDS>"
]

unfoldable pub peer_list : List Bytes → Bytes
peer_list [] = []
peer_list (peer ∷ peers) = text "<Peer Address=\"" ++ peer ++ text "\"/>" ++ peer_list peers

-- The listener itself, where there are no peers.
abbrev own_peer : ℕ → Bytes → List Bytes → Bytes
own_peer port interface [] =
    text "<Peer Address=\""
    ++ (if is_empty interface then text "127.0.0.1" else interface)
    ++ text ":"
    ++ decimal port
    ++ text "\"/>"
own_peer port interface (peer ∷ peers) = []

unfoldable pub tcp_config_xml : ℕ → List Bytes → Bytes → Bytes
unfolding peer_list
tcp_config_xml port peers interface =
    text "<CycloneDDS xmlns=\"https://cdds.io/config\"><Domain>"
    ++ text "<General><Transport>tcp</Transport><AllowMulticast>false</AllowMulticast>"
    ++ (if is_empty interface
        then []
        else text "<Interfaces><NetworkInterface address=\""
          ++ interface
          ++ text "\"/></Interfaces>")
    ++ text "</General>"
    ++ text "<Discovery><ParticipantIndex>auto</ParticipantIndex><Peers>"
    ++ peer_list peers
    ++ own_peer port interface peers
    ++ text "</Peers></Discovery>"
    ++ text "<TCP><Port>"
    ++ decimal port
    ++ text "</Port><NoDelay>true</NoDelay>"
    ++ text "<AlwaysUsePeeraddrForUnicast>true</AlwaysUsePeeraddrForUnicast></TCP>"
    ++ text "</Domain></CycloneDDS>"

-- if (!cfg.empty()) cfg += ",";  cfg += fragment;
unfoldable pub with_fragment : Bytes → Bytes → Bytes
with_fragment [] fragment = fragment
with_fragment (c ∷ cfg) fragment = (c ∷ cfg) ++ text "," ++ fragment

-- The configuration that the constructor of Participant makes the domain with; `none` stands for a
-- null pointer.
unfoldable pub participant_config : Environment → Context → Option Bytes
unfolding default_config_xml with_fragment
participant_config env ctx =
    let base = default_config_xml env ctx.localhost_only in
    let more = if is_empty ctx.config_xml then base else with_fragment base ctx.config_xml in
    let cfg : Bytes = elim env.cyclonedds_uri [ none ↦ more | some uri ↦ with_fragment more uri ] in
    if is_empty cfg then none else some cfg

-- The USER_DATA of a participant.
unfoldable pub enclave_user_data : Bytes → Bytes
enclave_user_data enclave = text "enclave=" ++ enclave ++ text ";"
