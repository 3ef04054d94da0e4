-- ===== src/Names/Search.antt =====
-- The members of std::string that src/rcllite/names.cpp uses: front, back, find, rfind, substr.
use rcllite.Prelude.{
  ℕ, suc, Bool, true, false, Option, none, some, [], ◌∷◌, Bytes, take, drop, ◌==◌, if◌then◌else◌,
}
use mathlib.Core.Option

abbrev pub slash : ℕ
slash = b'/'

-- s.front() == c; false on the empty string, which the source never asks.
unfoldable pub starts_with_byte : ℕ → Bytes → Bool
starts_with_byte c [] = false
starts_with_byte c (b ∷ s) = b == c

-- s.back() == c
unfoldable pub ends_with_byte : ℕ → Bytes → Bool
ends_with_byte c [] = false
ends_with_byte c (b ∷ []) = b == c
ends_with_byte c (b ∷ d ∷ s) = ends_with_byte c (d ∷ s)

-- s.rfind(p, 0) == 0, and s.compare(0, p.size(), p) == 0
unfoldable pub starts_with : Bytes → Bytes → Bool
starts_with [] s = true
starts_with (p ∷ ps) [] = false
starts_with (p ∷ ps) (b ∷ s) = let rest = starts_with ps s in if p == b then rest else false

-- s.find(c)
unfoldable pub find_byte : ℕ → Bytes → Option ℕ
find_byte c [] = none
find_byte c (b ∷ s) = let rest = find_byte c s in if b == c then some 0 else Option.map suc rest

-- s.find(p)
unfoldable pub find_text : Bytes → Bytes → Option ℕ
unfolding starts_with
find_text p [] = if starts_with p [] then some 0 else none
find_text p (b ∷ s) =
    let rest = find_text p s in if starts_with p (b ∷ s) then some 0 else Option.map suc rest

-- s.rfind(c)
unfoldable pub rfind_byte : ℕ → Bytes → Option ℕ
rfind_byte c [] = none
rfind_byte c (b ∷ s) = elim (rfind_byte c s) [
  | some i ↦ some (suc i)
  | none ↦ if b == c then some 0 else none
]

-- s.find(...) != npos
abbrev pub found : {A : Type 0} → Option A → Bool
found none = false
found (some i) = true

abbrev pub is_empty : Bytes → Bool
is_empty [] = true
is_empty (b ∷ s) = false

-- s.substr(pos, n)
abbrev pub substr : Bytes → ℕ → ℕ → Bytes
substr s pos n = take n (drop pos s)
