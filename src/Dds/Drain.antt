-- ===== src/Dds/Drain.antt =====
-- A take (src/rcllite/dds/entities.hpp) from the queue of a reader.
use rcllite.Prelude.{
  ℕ, zero, suc, ◌+◌, ◌-◌, ◌*◌, ◌<◌, ◌≤◌, ◌≡◌, refl, sym, ap, ◌∙◌, subst, arith, Bool, true, false,
  Option, none, some, List, [], ◌∷◌, ◌++◌, Bytes, length, length-drop, length-take, append-nil,
  append_assoc, Result, ok, ltb, Bool-cases, inl, inr, if◌then◌else◌, drop,
}
use rcllite.Prelude
use rcllite.Dds.Take.{Sample, handed, Taken, take}

-- What CycloneDDS documents of dds_takecdr on a reader whose samples are `queued`: up to 16 of the
-- oldest are taken, and the others stay.
pub record TakesOldest {S : Type 0} (dds_takecdr : S → S × Option (List Sample))
    (queued : S → List Sample) : Type 0 where
  pub taken : (s : S) → (dds_takecdr s).1 ≡ some (Prelude.take 16 (queued s))
  pub left : (s : S) → queued (dds_takecdr s).0 ≡ drop 16 (queued s)

take_all {ℓ} : {A : Type ℓ} (n : ℕ) (xs : List A) → length xs ≤ n → Prelude.take n xs ≡ xs
take_all zero [] h = refl
take_all zero (x ∷ xs) h = absurd (omega arith)
take_all (suc n) [] h = refl
take_all (suc n) (x ∷ xs) h = ap (λ l. x ∷ l) (take_all n xs (omega arith))

handed-split :
    (n : ℕ) (samples : List Sample)
    → handed (Prelude.take n samples) ++ handed (drop n samples) ≡ handed samples
unfolding handed
handed-split zero samples = refl
handed-split (suc n) [] = refl
handed-split (suc n) (s ∷ samples) = elim (Bool-cases s.valid_data) [
  | inl v ↦ rw v (ap (λ l. s.payload ∷ l) (handed-split n samples))
  | inr v ↦ rw v (handed-split n samples)
]

drop_all {ℓ} : {A : Type ℓ} (n : ℕ) (xs : List A) → length xs ≤ n → drop n xs ≡ []
drop_all zero [] h = refl
drop_all zero (x ∷ xs) h = absurd (omega arith)
drop_all (suc n) [] h = refl
drop_all (suc n) (x ∷ xs) h = drop_all n xs (omega arith)

module _ {S : Type 0} (dds_takecdr : S → S × Option (List Sample)) (queued : S → List Sample)
    (oldest : TakesOldest dds_takecdr queued) where
  -- What a take with enough rounds ends with.
  abbrev Drained : Taken S → ℕ → List Bytes → List Sample → Type 0
  Drained t total payloads q =
      (t.outcome ≡ some (ok (total + length q)))
      × (t.payloads ≡ payloads ++ handed q)
      × (queued t.state ≡ [])

  drains :
      (fuel : ℕ) (s : S) (payloads : List Bytes) (total : ℕ)
      → length (queued s) < 16 * fuel
      → Drained (take dds_takecdr fuel s payloads total) total payloads (queued s)
  unfolding take
  drains zero s payloads total h = absurd (omega arith)
  drains (suc fuel) s payloads total h = elim (Bool-cases (ltb (length (queued s)) 16)) [
    | inl last ↦
        let short : length (queued s) ≤ 16 = ground (arith, last) in
        rw (oldest.taken s, take_all 16 (queued s) short, take, last)
          (refl, refl, oldest.left s ∙ drop_all 16 (queued s) short)
    | inr full ↦
        let long : 16 ≤ length (queued s) = ground (arith, full) in
        rw (oldest.taken s, take, length-take 16 (queued s) long)
          (again long (
            drains fuel (dds_takecdr s).0 (payloads ++ handed (Prelude.take 16 (queued s)))
              (total + 16)
              (rw (oldest.left s, length-drop 16 (queued s)) (omega (arith, h, long)))))
  ]
    where
      again :
          16 ≤ length (queued s)
          → Drained
              (take dds_takecdr fuel
                (dds_takecdr s).0
                (payloads ++ handed (Prelude.take 16 (queued s)))
                (total + 16))
              (total + 16)
              (payloads ++ handed (Prelude.take 16 (queued s)))
              (queued (dds_takecdr s).0)
          → Drained
              (take dds_takecdr fuel
                (dds_takecdr s).0
                (payloads ++ handed (Prelude.take 16 (queued s)))
                (total + 16))
              total
              payloads
              (queued s)
      again long (a, b, c) = (
        a ∙ ap (λ n. some (ok n)) (counted (ap length (oldest.left s) ∙ length-drop 16 (queued s))),
        b
            ∙ ap (λ q. (payloads ++ handed (Prelude.take 16 (queued s))) ++ handed q)
                (oldest.left s)
            ∙ append_assoc payloads (handed (Prelude.take 16 (queued s)))
                (handed (drop 16 (queued s)))
            ∙ ap (λ l. payloads ++ l) (handed-split 16 (queued s)),
        c,
      )
        where
          counted :
              length (queued (dds_takecdr s).0) ≡ length (queued s) - 16
              → total + 16 + length (queued (dds_takecdr s).0) ≡ total + length (queued s)
          counted e = omega arith

  -- On a reader that hands out its oldest samples, up to 16 at a time, a take that is given more
  -- rounds than there are full batches ends, counts all samples, hands over the payloads of
  -- those with data in their order, and leaves none.
  pub take-drains :
      (s : S) (fuel : ℕ)
      → length (queued s) < 16 * fuel
      → ((take dds_takecdr fuel s [] 0).outcome ≡ some (ok (length (queued s))))
        × ((take dds_takecdr fuel s [] 0).payloads ≡ handed (queued s))
        × (queued (take dds_takecdr fuel s [] 0).state ≡ [])
  take-drains s fuel h =
      let (a, b, c) = drains fuel s [] 0 h in
      (a ∙ ap (λ n. some (ok n)) (none_before (length (queued s))), b, c)
    where
      none_before : (n : ℕ) → 0 + n ≡ n
      none_before n = omega arith
