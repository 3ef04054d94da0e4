-- ===== src/Examples/Sums.antt =====
-- Consecutive numbers and their running sums, for the proofs on examples/graph/abc_graph.cpp.
use rcllite.Prelude.{
  ℕ, zero, suc, ◌+◌, ◌-◌, ◌%◌, ◌^◌, ◌<◌, ◌≤◌, ◌≡◌, refl, sym, ap, ◌∙◌, arith, List, [], ◌∷◌, ◌++◌,
  length, length-append, if◌then◌else◌, ◌==◌,
}

-- a, a + 1, and so on.
abbrev pub numbers_from : ℕ → ℕ → List ℕ
numbers_from a zero = []
numbers_from a (suc k) = a ∷ numbers_from (a + 1) k

-- The running sums behind `total`.
abbrev pub sums_from : ℕ → List ℕ → List ℕ
sums_from total [] = []
sums_from total (x ∷ xs) = let now = (total + x) % 2 ^ 64 in now ∷ sums_from now xs

abbrev pub total_of : ℕ → List ℕ → ℕ
total_of total [] = total
total_of total (x ∷ xs) = total_of ((total + x) % 2 ^ 64) xs

pub numbers_from-snoc :
    (a k b : ℕ) → b ≡ a + k → numbers_from a (suc k) ≡ numbers_from a k ++ (b ∷ [])
numbers_from-snoc a zero b e = ap (λ j. j ∷ []) (same_number e)
  where
    same_number : b ≡ a + 0 → a ≡ b
    same_number p = omega arith
numbers_from-snoc a (suc k) b e = ap (λ l. a ∷ l) (numbers_from-snoc (a + 1) k b (omega arith))

pub sums_from-snoc :
    (total x : ℕ) (xs : List ℕ)
    → sums_from total (xs ++ (x ∷ []))
      ≡ sums_from total xs ++ (((total_of total xs + x) % 2 ^ 64) ∷ [])
sums_from-snoc total x [] = refl
sums_from-snoc total x (y ∷ xs) =
    ap (λ l. ((total + y) % 2 ^ 64) ∷ l) (sums_from-snoc ((total + y) % 2 ^ 64) x xs)

pub total_of-snoc :
    (total x : ℕ) (xs : List ℕ) → total_of total (xs ++ (x ∷ [])) ≡ (total_of total xs + x) % 2 ^ 64
total_of-snoc total x [] = refl
total_of-snoc total x (y ∷ xs) = total_of-snoc ((total + y) % 2 ^ 64) x xs

-- A queue of consecutive numbers that ends with `n`, one longer.
pub queued-snoc :
    (n : ℕ) (q : List ℕ)
    → length q ≤ n
    → q ≡ numbers_from (n + 1 - length q) (length q)
    → q ++ ((n + 1) ∷ [])
      ≡ numbers_from ((n + 1) + 1 - length (q ++ ((n + 1) ∷ []))) (length (q ++ ((n + 1) ∷ [])))
queued-snoc n q h e =
    ap (λ l. l ++ ((n + 1) ∷ [])) e
    ∙ sym (numbers_from-snoc (n + 1 - length q) (length q) ((n + 1)) (omega arith))
    ∙ same_window ((n + 1) + 1 - length (q ++ ((n + 1) ∷ []))) (length (q ++ ((n + 1) ∷ [])))
        (omega (arith, length-append q ((n + 1) ∷ [])))
        (omega (arith, length-append q ((n + 1) ∷ [])))
  where
    same_window :
        (a k : ℕ)
        → a ≡ n + 1 - length q
        → k ≡ suc (length q)
        → numbers_from (n + 1 - length q) (suc (length q)) ≡ numbers_from a k
    same_window a k p r = rw (p, r) refl

-- The head of a queue of consecutive numbers, and its rest.
pub dequeued :
    (x a k : ℕ) (rest : List ℕ)
    → x ∷ rest ≡ numbers_from a k
    → k ≡ suc (length rest)
    → (x ≡ a) × (rest ≡ numbers_from (a + 1) (length rest))
dequeued x a zero rest e h = absurd (omega arith)
dequeued x a (suc k) rest e h =
    let same : k ≡ length rest = omega arith in (cc, tails ∙ ap (numbers_from (a + 1)) same)
  where
    tails : rest ≡ numbers_from (a + 1) k
    tails = cc

-- A window with one more number; an empty one begins with it.
pub window-snoc :
    (x k f : ℕ)
    → (k ≡ 0 → f ≡ 0)
    → (0 < k → 0 < f)
    → (0 < k → x ≡ f + k)
    → numbers_from (if f == 0 then x else f) (k + 1) ≡ numbers_from f k ++ (x ∷ [])
window-snoc x zero f a b c = rw (a refl) refl
window-snoc x (suc k) f a b c =
    let some_first : 0 < f = b (omega arith) in
    ap (λ j. numbers_from (if f == 0 then x else f) j) (one_more k)
    ∙ ap (λ a. numbers_from a (suc (suc k))) (ground (arith, some_first))
    ∙ numbers_from-snoc f (suc k) x (c (omega arith))
  where
    one_more : (j : ℕ) → suc j + 1 ≡ suc (suc j)
    one_more j = omega arith

pub window_end :
    (x k f : ℕ)
    → (k ≡ 0 → f ≡ 0)
    → (0 < k → 0 < f)
    → (0 < k → x ≡ f + k)
    → x + 1 ≡ (if f == 0 then x else f) + (k + 1)
window_end x zero f a b c = rw (a refl) (omega arith)
window_end x (suc k) f a b c = ground (arith, b (omega arith), c (omega arith))
