-- ===== src/Parameter/Listing.antt =====
-- tokenize and handle_list of src/rcllite/parameter.cpp.
use rcllite.Prelude.{
  ℕ, ◌-◌, Bool, true, false, ◌&&◌, ◌||◌, List, [], ◌∷◌, ◌++◌, Bytes, ◌==◌, leb, ltb, if◌then◌else◌,
  map, length, same_text, text_before,
}
use rcllite.Prelude.OrderedMap
use rcllite.Prelude.OrderedMap.{OrderedMap, text_key}
use rcllite.Parameter.Core.{ParameterCore}

abbrev pub dot : ℕ
dot = b'.'

-- The loop over std::getline: `cur` is what was read since the last dot. Nothing is pushed for an
-- empty rest at the end of the text.
unfoldable pub tokens_from : Bytes → Bytes → List Bytes
tokens_from [] [] = []
tokens_from (b ∷ cur) [] = (b ∷ cur) ∷ []
tokens_from cur (c ∷ s) = elim (c == dot) [
  | true ↦ cur ∷ tokens_from [] s
  | false ↦ tokens_from (cur ++ (c ∷ [])) s
]

unfoldable pub tokenize : Bytes → List Bytes
tokenize name = tokens_from [] name

-- std::equal(pp.begin(), pp.end(), parts.begin()), for parts that are as many at least.
unfoldable pub tokens_equal : List Bytes → List Bytes → Bool
tokens_equal [] parts = true
tokens_equal (p ∷ pp) [] = false
tokens_equal (p ∷ pp) (q ∷ parts) = same_text p q && tokens_equal pp parts

-- The loop over the prefixes: the first that matches decides.
unfoldable pub under_prefix : ℕ → List Bytes → List Bytes → Bool
under_prefix depth [] parts = false
under_prefix depth (prefix ∷ rest) parts =
    let pp = tokenize prefix in
    let go_on = under_prefix depth rest parts in
    if ltb (length parts) (length pp)
    then go_on
    else if tokens_equal pp parts
    then depth == 0 || leb (length parts - length pp) depth
    else go_on

unfoldable pub is_listed : List Bytes → ℕ → Bytes → Bool
is_listed [] depth name = depth == 0 || leb (length (tokenize name)) depth
is_listed (p ∷ prefixes) depth name = under_prefix depth (p ∷ prefixes) (tokenize name)

-- The names that match, in the order of the map.
unfoldable pub matched : {V : Type 0} → List Bytes → ℕ → OrderedMap Bytes V → List Bytes
matched prefixes depth [] = []
matched prefixes depth ((name, value) ∷ m) =
    let rest = matched prefixes depth m in
    if is_listed prefixes depth name then name ∷ rest else rest

-- std::sort on texts, as an insertion sort.
unfoldable pub insert_sorted : Bytes → List Bytes → List Bytes
insert_sorted s [] = s ∷ []
insert_sorted s (t ∷ ts) =
    let rest = insert_sorted s ts in if text_before t s then t ∷ rest else s ∷ t ∷ ts

unfoldable pub sort : List Bytes → List Bytes
sort [] = []
sort (s ∷ ts) = insert_sorted s (sort ts)

-- name.substr(0, dot) for each dot; `front` is what stands before the rest of the name.
unfoldable pub dot_prefixes : Bytes → Bytes → List Bytes
dot_prefixes front [] = []
dot_prefixes front (c ∷ s) =
    let rest = dot_prefixes (front ++ (c ∷ [])) s in if c == dot then front ∷ rest else rest

-- std::set<std::string>: the keys of a map.
unfoldable pub insert_all : List Bytes → OrderedMap Bytes (Unit {0}) → OrderedMap Bytes (Unit {0})
insert_all [] set = set
insert_all (s ∷ ss) set = insert_all ss (OrderedMap.insert s tt set)

unfoldable pub prefix_set : List Bytes → OrderedMap Bytes (Unit {0}) → OrderedMap Bytes (Unit {0})
prefix_set [] set = set
prefix_set (name ∷ names) set = prefix_set names (insert_all (dot_prefixes [] name) set)

-- rcl_interfaces/msg/ListParametersResult
pub record ListParametersResult : Type 0 where
  pub names : List Bytes
  pub prefixes : List Bytes

unfoldable pub handle_list : List Bytes → ℕ → ParameterCore → ListParametersResult
handle_list prefixes depth core =
    let names = sort (matched prefixes depth core.values) in
    record { names = names; prefixes = map (λ p. p.0) (prefix_set names []) }
