-- ===== src/Names/Types.antt =====
-- dds_type_name of src/rcllite/names.cpp.
use rcllite.Prelude.{
  ℕ, suc, ◌+◌, ◌≡◌, ◌≢◌, refl, [], ◌∷◌, ◌++◌, arith, Bytes, true, false, text, length, ok, none,
  some, inl, inr, Bool-cases, Option-cases, All, take, drop, take-append,
}
use native.Mathlib.Numerals.{add-one}
use rcllite.Names.Search.{slash, starts_with, find_byte, rfind_byte, find_text, found}
use rcllite.Names.Maps.{colons_at, type_from_cut, dds_type_name}
use rcllite.Names.Tokens.{HasNoSlash}

abbrev pub colon : ℕ
colon = b':'

abbrev pub HasNoColon : Bytes → Type 0
HasNoColon = All (λ b. b ≢ colon)

no_colons : (s : Bytes) → HasNoColon s → found (find_text (text "::") s) ≡ false
unfolding find_text starts_with
no_colons [] h = refl
no_colons (b ∷ s) h = ground (arith, h.0, no_colons s h.1)

colons_found : (a b : Bytes) → found (find_text (text "::") (a ++ (text "::" ++ b))) ≡ true
unfolding find_text starts_with
colons_found [] b = refl
colons_found (c ∷ a) b = ground (arith, colons_found a b)

rfind_slash : (a n : Bytes) → HasNoSlash n → rfind_byte slash (a ++ (slash ∷ n)) ≡ some (length a)
unfolding rfind_byte
rfind_slash [] n h = rw (none_left n h) refl
  where
    none_left : (n : Bytes) → HasNoSlash n → rfind_byte slash n ≡ none
    none_left [] h = refl
    none_left (b ∷ s) h = rw (none_left s h.1) (ground (arith, h.0))
rfind_slash (b ∷ a) n h = rw (rfind_slash a n h) refl

find_slash : (a k : Bytes) → HasNoSlash a → find_byte slash (a ++ (slash ∷ k)) ≡ some (length a)
unfolding find_byte
find_slash [] k h = refl
find_slash (b ∷ a) k h = ground (arith, h.0, find_slash a k h.1)

drop_one_more : (a b : Bytes) (c : ℕ) → drop (length a + 1) (a ++ (c ∷ b)) ≡ b
drop_one_more a b c = rw add-one (behind a)
  where
    behind : (a : Bytes) → drop (suc (length a)) (a ++ (c ∷ b)) ≡ b
    behind [] = refl
    behind (d ∷ a) = behind a

-- The friendly name "pkg/msg/Name" becomes "pkg::msg::dds_::Name_", if the package and the name
-- have no slash and there is no colon anywhere.
dds_type_name_friendly :
    (pkg kind name : Bytes)
    → HasNoSlash pkg
    → HasNoSlash name
    → HasNoColon ((pkg ++ (slash ∷ kind)) ++ (slash ∷ name))
    → dds_type_name ((pkg ++ (slash ∷ kind)) ++ (slash ∷ name))
      ≡ ok ((pkg ++ (text "::" ++ kind)) ++ (text "::dds_::" ++ (name ++ text "_")))
unfolding dds_type_name type_from_cut colons_at
dds_type_name_friendly pkg kind name hp hn c = rw (
  no_colons ((pkg ++ (slash ∷ kind)) ++ (slash ∷ name)) c,
  rfind_slash (pkg ++ (slash ∷ kind)) name hn,
  take-append (pkg ++ (slash ∷ kind)) (slash ∷ name),
  find_slash pkg kind hp,
  take-append pkg (slash ∷ kind),
  drop_one_more pkg kind slash,
  drop_one_more (pkg ++ (slash ∷ kind)) name slash,
)

has_colons :
    (type dds : Bytes) → dds_type_name type ≡ ok dds → found (find_text (text "::") dds) ≡ true
unfolding dds_type_name type_from_cut
has_colons type dds h = elim (Bool-cases (found (find_text (text "::") type))) [
  | inl full ↦ ground (arith, full)
  | inr friendly ↦ elim (Option-cases (rfind_byte slash type)) [
    | inl e ↦ ground (arith, friendly, e)
    | inr (cut, e) ↦ built cut e (rw (friendly, e) at h)
  ]
]
  where
    built :
        (cut : ℕ)
        → rfind_byte slash type ≡ some cut
        → type_from_cut type (some cut) ≡ ok dds
        → found (find_text (text "::") dds) ≡ true
    built cut e k = ground (
      arith,
      k,
      colons_found (colons_at (find_byte slash (take cut type)) (take cut type))
          (text "dds_::" ++ (drop (cut + 1) type ++ text "_")),
    )

-- A name that dds_type_name returned goes through it unchanged.
pub dds_type_name_idem :
    (type dds : Bytes) → dds_type_name type ≡ ok dds → dds_type_name dds ≡ ok dds
unfolding dds_type_name
dds_type_name_idem type dds h = rw (has_colons type dds h)
