-- ===== src/Names/Maps.antt =====
-- The functions of src/rcllite/names.cpp. A failed check is the exception that it throws.
use rcllite.Prelude.{
  ℕ, ◌+◌, not, ◌&&◌, ◌||◌, Option, none, some, [], ◌∷◌, ◌++◌, Bytes, text, same_text, length, take,
  drop, ltb, if◌then◌else◌, Result, ok, err, Error, invalid_arguments, ◌>>=◌, unless,
}
use rcllite.Names.Search.{
  slash, starts_with_byte, ends_with_byte, find_byte, find_text, rfind_byte, found, is_empty,
}

abbrev pub bad_start : Bytes → Error
bad_start s = invalid_arguments "fully qualified name must start with '/': {}" (s ∷ [])

abbrev pub bad_end : Bytes → Error
bad_end s = invalid_arguments "fully qualified name must not end with '/': {}" (s ∷ [])

abbrev pub empty_token : Bytes → Error
empty_token s = invalid_arguments "fully qualified name contains empty token: {}" (s ∷ [])

-- Throws unless the name starts with a slash, does not end with one and has no empty token.
unfoldable pub validate_fqn : Bytes → Result (Unit {0})
unfolding starts_with_byte ends_with_byte find_text
validate_fqn fqn = unless (is_empty fqn || not (starts_with_byte slash fqn)) (bad_start fqn) (
    unless (ltb 1 (length fqn) && ends_with_byte slash fqn) (bad_end fqn)
      (unless (found (find_text (slash ∷ slash ∷ []) fqn)) (empty_token fqn) (ok tt)))

unfoldable pub ros_to_dds_topic_name : Bytes → Result Bytes
unfolding validate_fqn
ros_to_dds_topic_name ros_fqn = validate_fqn ros_fqn >>= λ u. ok (text "rt" ++ ros_fqn)

unfoldable pub ros_to_dds_request_topic_name : Bytes → Result Bytes
unfolding validate_fqn
ros_to_dds_request_topic_name ros_fqn =
    validate_fqn ros_fqn >>= λ u. ok (text "rq" ++ (ros_fqn ++ text "Request"))

unfoldable pub ros_to_dds_reply_topic_name : Bytes → Result Bytes
unfolding validate_fqn
ros_to_dds_reply_topic_name ros_fqn =
    validate_fqn ros_fqn >>= λ u. ok (text "rr" ++ (ros_fqn ++ text "Reply"))

unfoldable pub make_fq_node_name : Bytes → Bytes → Result Bytes
unfolding starts_with_byte ends_with_byte find_byte
make_fq_node_name ns name =
    unless (is_empty name || found (find_byte slash name))
      (invalid_arguments "invalid node name: {}" (name ∷ []))
      (unless
        (is_empty ns
          || not (starts_with_byte slash ns)
          || (ltb 1 (length ns) && ends_with_byte slash ns))
        (invalid_arguments "invalid namespace: {}" (ns ∷ []))
        (ok (if same_text ns (slash ∷ []) then slash ∷ name else ns ++ (slash ∷ name))))

-- dds_ns.replace(slash, 1, "::")
unfoldable pub colons_at : Option ℕ → Bytes → Bytes
colons_at none dds_ns = dds_ns
colons_at (some i) dds_ns = take i dds_ns ++ (text "::" ++ drop (i + 1) dds_ns)

-- The part of dds_type_name behind the search for the last slash.
unfoldable pub type_from_cut : Bytes → Option ℕ → Result Bytes
unfolding colons_at find_byte
type_from_cut type none =
    err (invalid_arguments "type must be 'pkg/pkg/Name' or a full DDS name, got '{}'" (type ∷ []))
type_from_cut type (some cut) =
    let dds_ns = take cut type in
    ok (
      colons_at (find_byte slash dds_ns) dds_ns
      ++ (text "::dds_::" ++ (drop (cut + 1) type ++ text "_")))

unfoldable pub dds_type_name : Bytes → Result Bytes
unfolding type_from_cut find_text rfind_byte
dds_type_name type =
    if found (find_text (text "::") type)
    then ok type
    else type_from_cut type (rfind_byte slash type)

unfoldable pub expand_topic_name : Bytes → Bytes → Result Bytes
unfolding starts_with_byte find_byte
expand_topic_name topic ns =
    unless (is_empty topic) (invalid_arguments "topic name must not be empty" []) (
      if starts_with_byte slash topic
      then ok topic
      else unless (found (find_byte slash topic))
          (invalid_arguments "relative topic with sub-namespace is not supported: {}" (topic ∷ []))
          (if same_text ns (slash ∷ []) || is_empty ns
            then ok (slash ∷ topic)
            else ok (ns ++ (slash ∷ topic))))
