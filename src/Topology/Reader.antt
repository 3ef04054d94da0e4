-- ===== src/Topology/Reader.antt =====
-- A reader of the document that status_json of src/rcllite/graph_executor.cpp writes, for literals,
-- numbers and lists of objects.
use rcllite.Prelude.{
  ℕ, zero, suc, ◌+◌, ◌-◌, ◌*◌, ◌/◌, ◌%◌, ◌<◌, ◌≡◌, refl, ap, ◌∙◌, arith, ltb, inl, inr, Bool-cases,
  not, Bool, true, false, Option, none, some, List, [], ◌∷◌, ◌++◌, Bytes, text, map, length,
  append_assoc, leb, ◌&&◌, ◌==◌, if◌then◌else◌,
}
use rcllite.Json.Escape.{decimal, digits}
use rcllite.Topology.Status.{items_json}

-- What is read, and the text behind it.
abbrev pub Reading : Type 0 → Type 0
Reading A = Bytes → Option (A × Bytes)

abbrev pub and_then : {A B : Type 0} → Option (A × Bytes) → (A → Reading B) → Option (B × Bytes)
and_then none f = none
and_then (some (a, s)) f = f a s

-- A text that must stand there.
unfoldable pub expect : Bytes → Reading (Unit {0})
expect [] s = some (tt, s)
expect (p ∷ ps) [] = none
expect (p ∷ ps) (b ∷ s) = let rest = expect ps s in if p == b then rest else none

unfoldable pub take_digits : ℕ → Bytes → ℕ × Bytes
take_digits acc [] = (acc, [])
take_digits acc (c ∷ s) =
    let rest = take_digits (10 * acc + (c - b'0')) s in
    if leb b'0' c && leb c b'9' then rest else (acc, c ∷ s)

unfoldable pub read_number : Reading ℕ
unfolding take_digits
read_number s = some (take_digits 0 s)

-- Objects up to where no other begins, within `fuel` objects.
unfoldable pub read_items : {A : Type 0} → Reading A → ℕ → Bool → Reading (List A)
read_items item zero first s = none
read_items item (suc fuel) first s = elim (expect (if first then text "{" else text ",{") s) [
  | none ↦ some ([], s)
  | some (u, s') ↦
      and_then (item s')
        (λ a s''. and_then (read_items item fuel false s'') (λ items s3. some (a ∷ items, s3)))
]

pub expect-append : (p s : Bytes) → expect p (p ++ s) ≡ some (tt, s)
unfolding expect
expect-append [] s = refl
expect-append (b ∷ p) s = ground (arith, expect-append p s)

-- One digit in front.
one_digit :
    (acc d : ℕ) (rest : Bytes)
    → d < 10
    → take_digits acc ((d + b'0') ∷ rest) ≡ take_digits (10 * acc + d) rest
unfolding take_digits
one_digit acc d rest h = rw (in_range d h) (ap (λ v. take_digits (10 * acc + v) rest) (omega arith))
  where
    in_range : (d : ℕ) → d < 10 → (leb b'0' (d + b'0') && leb (d + b'0') b'9') ≡ true
    in_range d h = ground arith

take_digits-digits :
    (fuel n : ℕ) (rest : Bytes) → n < fuel → take_digits 0 (digits fuel n rest) ≡ take_digits n rest
unfolding digits
take_digits-digits zero n rest h = absurd (omega arith)
take_digits-digits (suc fuel) n rest h = elim (Bool-cases (ltb n 10)) [
  | inl small ↦
      rw small
        (one_digit 0 n rest (ground (arith, small)) ∙ ap (λ v. take_digits v rest) (omega arith))
  | inr large ↦ rw large (
      take_digits-digits fuel (n / 10) ((n % 10 + b'0') ∷ rest) (ground (arith, large))
      ∙ one_digit (n / 10) (n % 10) rest (omega arith)
      ∙ ap (λ v. take_digits v rest) (omega arith))
]

-- A character that is no digit in front of what follows.
abbrev pub ends_number : Bytes → Bool
ends_number [] = true
ends_number (c ∷ s) = not (leb b'0' c && leb c b'9')

ended : (n : ℕ) (rest : Bytes) → ends_number rest ≡ true → take_digits n rest ≡ (n, rest)
unfolding take_digits
ended n [] h = refl
ended n (c ∷ rest) h = ground (arith, h)

digits-append :
    (fuel n : ℕ) (acc rest : Bytes) → digits fuel n acc ++ rest ≡ digits fuel n (acc ++ rest)
unfolding digits
digits-append zero n acc rest = refl
digits-append (suc fuel) n acc rest =
    ground (arith, digits-append fuel (n / 10) ((n % 10 + b'0') ∷ acc) rest)

pub read_number-decimal :
    (n : ℕ) (rest : Bytes)
    → ends_number rest ≡ true
    → read_number (decimal n ++ rest) ≡ some (n, rest)
unfolding read_number decimal
read_number-decimal n rest h =
    ap (λ t. some (take_digits 0 t)) (digits-append (suc n) n [] rest)
    ∙ ap some (take_digits-digits (suc n) n rest (omega arith) ∙ ended n rest h)

-- `rest` begins no other object.
abbrev pub EndsItems : Bytes → Type 0
EndsItems rest = (expect (text "{") rest ≡ none) × (expect (text ",{") rest ≡ none)

module _ {A B : Type 0} (print : A → Bytes) (view : A → B) (item : Reading B)
    (reads : (a : A) (rest : Bytes) → item (print a ++ rest) ≡ some (view a, rest)) where
  pub read_items-items_json :
      (fuel : ℕ) (first : Bool) (xs : List A) (rest : Bytes)
      → length xs < fuel
      → EndsItems rest
      → read_items item fuel first (items_json print first xs ++ rest) ≡ some (map view xs, rest)
  unfolding read_items items_json expect
  read_items-items_json zero first xs rest h e = absurd (omega arith)
  read_items-items_json (suc fuel) true [] rest h e = rw e.0
  read_items-items_json (suc fuel) false [] rest h e = rw e.1
  read_items-items_json (suc fuel) true (x ∷ xs) rest h e = rw (
    append_assoc (print x) (items_json print false xs) rest,
    reads x (items_json print false xs ++ rest),
    read_items-items_json fuel false xs rest (omega (arith, h)) e,
  )
  read_items-items_json (suc fuel) false (x ∷ xs) rest h e = rw (
    append_assoc (print x) (items_json print false xs) rest,
    reads x (items_json print false xs ++ rest),
    read_items-items_json fuel false xs rest (omega (arith, h)) e,
  )
