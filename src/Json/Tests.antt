-- ===== src/Json/Tests.antt =====
-- Runs of src/rcllite/json_writer.hpp, and its theorem at a concrete text.
use rcllite.Prelude.{◌≡◌, refl, some, [], ◌∷◌, ◌++◌, text}
use rcllite.Json.Escape.{json_escape_string, decimal, escape_char, escape_chars, digits}
use rcllite.Json.Unescape.{parse_string, json_escape_string-parse}

-- A quote, a tab and a control character.
escaped : json_escape_string (34 ∷ 9 ∷ 31 ∷ []) ≡ text "\"\\\"\\t\\u001f\""
unfolding json_escape_string escape_char escape_chars
escaped = refl

printed : decimal 1020 ≡ text "1020"
unfolding decimal digits
printed = refl

json_escape_string-parse_example :
    parse_string (json_escape_string (34 ∷ 9 ∷ 31 ∷ []) ++ (text ","))
    ≡ some ((34 ∷ 9 ∷ 31 ∷ []), text ",")
json_escape_string-parse_example = json_escape_string-parse (34 ∷ 9 ∷ 31 ∷ []) (text ",")
