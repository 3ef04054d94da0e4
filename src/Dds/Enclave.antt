-- ===== src/Dds/Enclave.antt =====
-- The name that a participant announces (src/rcllite/dds/entities.cpp) and the one that the graph
-- monitor reads (src/rcllite/graph.cpp), and the range of the domain.
use rcllite.Prelude.{
  ◌≤◌, ◌≡◌, ◌≢◌, refl, arith, none, some, Option, [], ◌∷◌, ◌++◌, Bytes, All, text, length,
  take-append,
}
use rcllite.Names.Search.{find_byte, find_text, starts_with}
use rcllite.Graph.Poll.{parse_enclave}
use rcllite.Dds.Config.{enclave_user_data, env_domain_id, strtol}

find_semi :
    (s rest : Bytes) → All (λ b. b ≢ b';') s → find_byte b';' (s ++ (b';' ∷ rest)) ≡ some (length s)
unfolding find_byte
find_semi [] rest h = refl
find_semi (b ∷ s) rest h = ground (arith, h.0, find_semi s rest h.1)

-- The graph monitor reads back the name that a participant announces, if there is no semicolon
-- in it.
parse_enclave-enclave_user_data :
    (enclave : Bytes)
    → All (λ b. b ≢ b';') enclave
    → parse_enclave (enclave_user_data enclave) ≡ enclave
unfolding parse_enclave enclave_user_data find_text starts_with
parse_enclave-enclave_user_data enclave h =
    rw (find_semi enclave [] h) (take-append enclave (text ";"))

-- Whatever ROS_DOMAIN_ID is, the domain that it gives is at most 232.
env_domain_id_range : (env : Option Bytes) → env_domain_id env ≤ 232
unfolding env_domain_id
env_domain_id_range none = omega arith
env_domain_id_range (some []) = omega arith
env_domain_id_range (some (c ∷ s)) = ground (arith, strtol (c ∷ s))
