-- ===== src/Examples/Verdict.antt =====
-- When main of examples/graph/abc_graph.cpp says PIPELINE OK.
use rcllite.Prelude.{
  ℕ, zero, suc, ◌+◌, ◌-◌, ◌%◌, ◌^◌, ◌<◌, ◌≡◌, refl, sym, ap, ◌∙◌, subst, arith, true, false, List,
  [], ◌∷◌, ◌++◌, append_assoc, append-nil, length, length-append, ==_iff,
}
use rcllite.Examples.Pipeline.{
  Pipeline, Reach, holds_at, same_from, received_is_suffix, sums_right, verdict,
}
use rcllite.Examples.Sums.{numbers_from, sums_from}
use rcllite.Examples.Invariant.{Inv}
use rcllite.Examples.Newest.{ends, Reach-Newest}
use rcllite.Examples.Counted.{Reach-Inv}

get_elem_behind :
    (front rest : List ℕ) (y i : ℕ) → i ≡ length front → holds_at (front ++ (y ∷ rest)) i y ≡ true
get_elem_behind [] rest y zero e = (==_iff y y).1 refl
get_elem_behind [] rest y (suc i) e = absurd (omega arith)
get_elem_behind (x ∷ front) rest y zero e = absurd (omega arith)
get_elem_behind (x ∷ front) rest y (suc i) e = get_elem_behind front rest y i (omega arith)

sums_right-numbers :
    (rounds first x expect : ℕ) (done : List ℕ)
    → x ≡ first + length done
    → sums_right (done ++ sums_from expect (numbers_from x rounds)) first rounds x expect ≡ true
unfolding sums_right
sums_right-numbers zero first x expect done e = refl
sums_right-numbers (suc k) first x expect done e =
    let now : ℕ = (expect + x) % 2 ^ 64 in
    let tail : List ℕ = sums_from now (numbers_from (x + 1) k) in
    let at : x - first ≡ length done = omega arith in
    let rest : sums_right (done ++ (now ∷ tail)) first k (x + 1) now ≡ true =
      subst (λ l. sums_right l first k (x + 1) now ≡ true) (append_assoc done (now ∷ []) tail)
        (sums_right-numbers k first (x + 1) now (done ++ (now ∷ []))
          (omega (arith, length-append done (now ∷ [])))) in
    rw (get_elem_behind done tail now (x - first) at, rest) refl

same_from-append :
    (front rest : List ℕ) (i : ℕ) → i ≡ length front → same_from (front ++ rest) i rest ≡ true
unfolding same_from
same_from-append front [] i e = refl
same_from-append front (r ∷ rs) i e =
    let rest : same_from (front ++ (r ∷ rs)) (i + 1) rs ≡ true =
      subst (λ l. same_from l (i + 1) rs ≡ true) (append_assoc front (r ∷ []) rs)
        (same_from-append (front ++ (r ∷ [])) rs (i + 1)
          (omega (arith, length-append front (r ∷ [])))) in
    rw (get_elem_behind front rs r i e, rest) refl

received_is_suffix-append :
    (lost received : List ℕ)
    → 0 < length received
    → received_is_suffix (lost ++ received) received ≡ true
unfolding received_is_suffix
received_is_suffix-append lost received some_received =
    let offset : length (lost ++ received) - length received ≡ length lost =
      omega (arith, length-append lost received) in
    ground (
      arith,
      same_from-append lost received (length (lost ++ received) - length received) offset,
      length-append lost received,
      some_received,
    )

module _ (s : Pipeline) (inv : Inv s) (quiet : s.to_c ≡ []) (heard : 0 < length s.received) where
  tail : s.published_sums ≡ inv.downstream.lost ++ s.received
  tail =
      inv.downstream.tail
      ∙ ap (λ q. inv.downstream.lost ++ (s.received ++ q)) quiet
      ∙ ap (λ l. inv.downstream.lost ++ l) (append-nil s.received)

  some_inputs : 0 < s.inputs
  some_inputs = go s.inputs refl
    where
      go : (k : ℕ) → s.inputs ≡ k → 0 < s.inputs
      go zero e = absurd (
          omega (
            arith,
            ap length (
                sym tail
                ∙ inv.window.sums
                ∙ ap (λ j. sums_from 0 (numbers_from s.first_input j)) e),
            length-append inv.downstream.lost s.received,
            heard,
          ))
      go (suc k) e = omega (arith, e)

  sums_hold :
      sums_right s.published_sums s.first_input (s.last_input + 1 - s.first_input) s.first_input 0
      ≡ true
  sums_hold =
      let rounds : s.last_input + 1 - s.first_input ≡ s.inputs =
        omega (arith, inv.window.to some_inputs) in
      ap (λ l. sums_right l s.first_input (s.last_input + 1 - s.first_input) s.first_input 0)
        inv.window.sums
      ∙ ap
          (λ k.
            sums_right (sums_from 0 (numbers_from s.first_input s.inputs)) s.first_input k
              s.first_input 0)
          rounds
      ∙ sums_right-numbers s.inputs s.first_input s.first_input 0 [] (omega arith)

  suffix_holds : received_is_suffix s.published_sums s.received ≡ true
  suffix_holds =
      ap (λ l. received_is_suffix l s.received) tail
      ∙ received_is_suffix-append inv.downstream.lost s.received heard

-- In any interleaving of the three nodes, the discovery and the cancel in which no sample was
-- overwritten in a full history, if A has stored what it published, no sum is on its way to C
-- and C has heard one, main finds the pipeline right.
pub verdict_holds :
    (s : Pipeline)
    → Reach s
    → s.overwritten ≡ false
    → s.storing ≡ false
    → s.to_c ≡ []
    → 0 < length s.received
    → verdict s ≡ true
unfolding verdict
verdict_holds s r whole idle quiet heard =
    let inv : Inv s = Reach-Inv s r whole in
    let some : 0 < s.inputs = some_inputs s inv quiet heard in
    ground (
      arith,
      some,
      inv.window.from some,
      inv.window.to some,
      inv.window.upto some,
      inv.upstream.stored idle,
      sums_hold s inv quiet heard,
      suffix_holds s inv quiet heard,
    )

-- In any interleaving, also where samples are overwritten in a full history, if A has published
-- a number that it has not stored, nothing is on its way to B and B has heard a number, main
-- finds the pipeline wrong.
pub verdict_too_early :
    (s : Pipeline) → Reach s → s.storing ≡ true → s.to_b ≡ [] → 0 < s.inputs → verdict s ≡ false
unfolding verdict
verdict_too_early s r busy empty some =
    let i = Reach-Newest s r in
    let last : s.last_input ≡ s.n =
      sym (ap (ends s.last_input) empty) ∙ i.newest (omega (arith, some)) in
    ground (arith, last, i.storing busy)
