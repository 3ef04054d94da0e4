-- ===== src/Prelude/Text.antt =====
-- std::string and byte vectors: lists of bytes. A literal is the list of its code points.
use Prim.Native.Nat.{ℕ}
use Prim.Native.Char.{code}
use Prim.Native.String.{String}
use mathlib.Core.Path.{◌≡◌, refl}
use mathlib.Core.Logic.{◌↔◌}
use mathlib.Core.Bool.{Bool, true, false, ◌&&◌}
use mathlib.Core.List.{List, [], ◌∷◌}
use native.Mathlib.Omega.{arith}
use rcllite.Prelude.Tests.{◌==◌, ltb, if◌then◌else◌}

abbrev pub Bytes : Type 0
Bytes = List ℕ

abbrev pub text : String → Bytes
text String.[] = []
text (String.◌∷◌ c s) = code c ∷ text s

-- operator== of std::string.
unfoldable pub same_text : Bytes → Bytes → Bool
same_text [] [] = true
same_text [] (b ∷ bs) = false
same_text (a ∷ s) [] = false
same_text (a ∷ s) (b ∷ bs) = a == b && same_text s bs

pub same_text_iff : (s t : Bytes) → (same_text s t ≡ true) ↔ (s ≡ t)
unfolding same_text
same_text_iff [] [] = ground arith
same_text_iff [] (b ∷ bs) = ground arith
same_text_iff (a ∷ s) [] = ground arith
same_text_iff (a ∷ s) (b ∷ bs) = ground (arith, same_text_iff s bs)

pub same_text_refl : (s : Bytes) → same_text s s ≡ true
same_text_refl s = (same_text_iff s s).1 refl

-- operator< of std::string: bytes compare as unsigned numbers.
unfoldable pub text_before : Bytes → Bytes → Bool
text_before s [] = false
text_before [] (b ∷ t) = true
text_before (a ∷ s) (b ∷ t) = let rest = text_before s t in if a == b then rest else ltb a b
