-- ===== src/Examples/Tests.antt =====
-- Runs of the three nodes of examples/graph/abc_graph.cpp.
use rcllite.Dds.Qos.{default_qos}
use rcllite.Prelude.{ℕ, zero, suc, ◌+◌, ◌<◌, ◌^◌, ◌≡◌, refl, arith, true, false, [], ◌∷◌}
use rcllite.Examples.Pipeline.{
  Pipeline, publish_number, store_number, add_up, keep_sum, overwrite_b, publishes, stores, adds,
  keeps, matches_b, matches_c, cancels, overwrites_b, Reach, here, next, verdict,
  received_is_suffix, same_from, sums_right,
}
use rcllite.Examples.Verdict.{verdict_holds, verdict_too_early}

-- A has published 1, which is lost, and 2; B has added 2, and its sum is on its way to C.
abbrev one_added : Pipeline
one_added = record {
  n = 2;
  storing = true;
  published = 1;
  b_matched = true;
  to_b = [];
  sum = 2;
  inputs = 1;
  first_input = 2;
  last_input = 2;
  published_sums = 2 ∷ [];
  c_matched = true;
  to_c = 2 ∷ [];
  received = [];
  cancelled = false;
  overwritten = false;
}

one_added_reached : Reach one_added
unfolding publish_number store_number add_up
one_added_reached =
    next
      (next
        (next (next (next (next here (publishes refl (omega arith))) (stores refl)) matches_b)
          matches_c)
        (publishes refl (omega arith)))
      (adds 2 [] refl refl)

-- C has the sum, A has stored its number, and the executor has stopped.
abbrev all_heard : Pipeline
all_heard = record one_added {
  storing = false;
  published = 2;
  to_c = [];
  received = 2 ∷ [];
  cancelled = true;
}

all_heard_reached : Reach all_heard
unfolding store_number keep_sum
all_heard_reached =
    next (next (next one_added_reached (keeps 2 [] refl refl)) (stores refl)) cancels

verdict_holds_example : verdict all_heard ≡ true
verdict_holds_example = verdict_holds all_heard all_heard_reached refl refl refl (omega arith)

verdict_too_early_example : verdict one_added ≡ false
verdict_too_early_example = verdict_too_early one_added one_added_reached refl refl (omega arith)

-- The executor stops with B's second sum on its way: C has the first of two, which is no suffix.
abbrev second_on_its_way : Pipeline
second_on_its_way = record {
  n = 3;
  storing = false;
  published = 3;
  b_matched = true;
  to_b = [];
  sum = 5;
  inputs = 2;
  first_input = 2;
  last_input = 3;
  published_sums = 2 ∷ 5 ∷ [];
  c_matched = true;
  to_c = 5 ∷ [];
  received = 2 ∷ [];
  cancelled = true;
  overwritten = false;
}

second_on_its_way_reached : Reach second_on_its_way
unfolding publish_number store_number add_up keep_sum
second_on_its_way_reached =
    next
      (next
        (next
          (next (next (next one_added_reached (keeps 2 [] refl refl)) (stores refl))
            (publishes refl (omega arith)))
          (adds 3 [] refl refl))
        (stores refl))
      cancels

stopped_too_early : verdict second_on_its_way ≡ false
unfolding verdict received_is_suffix same_from sums_right
stopped_too_early = refl

-- A goes on while B stands still.
abbrev ahead : ℕ → Pipeline → Pipeline
ahead zero s = s
ahead (suc k) s = ahead k (store_number (publish_number s))

ahead_reached :
    (k : ℕ) (s : Pipeline) → s.storing ≡ false → s.n + k < 2 ^ 63 → Reach s → Reach (ahead k s)
unfolding publish_number store_number
ahead_reached zero s idle small r = r
ahead_reached (suc k) s idle small r =
    ahead_reached k (store_number (publish_number s)) refl (omega (arith, small))
      (next (next r (publishes idle (omega (arith, small)))) (stores refl))

-- C has B's first sum, 2; eleven numbers of A come before B runs again, and the first of them, 3,
-- is overwritten. B adds 4, and its numbers have a gap.
abbrev stalled : Pipeline
stalled = ahead 11 (store_number (keep_sum 2 [] one_added))

abbrev gap : Pipeline
gap =
    add_up 4 (5 ∷ 6 ∷ 7 ∷ 8 ∷ 9 ∷ 10 ∷ 11 ∷ 12 ∷ 13 ∷ [])
      (overwrite_b [] (4 ∷ 5 ∷ 6 ∷ 7 ∷ 8 ∷ 9 ∷ 10 ∷ 11 ∷ 12 ∷ 13 ∷ []) stalled)

gap_reached : Reach gap
unfolding publish_number store_number add_up keep_sum overwrite_b default_qos
gap_reached =
    next
      (next
        (ahead_reached 11 (store_number (keep_sum 2 [] one_added)) refl (omega arith)
          (next (next one_added_reached (keeps 2 [] refl refl)) (stores refl)))
        (overwrites_b [] 3 (4 ∷ 5 ∷ 6 ∷ 7 ∷ 8 ∷ 9 ∷ 10 ∷ 11 ∷ 12 ∷ 13 ∷ []) refl (omega arith)))
      (adds 4 (5 ∷ 6 ∷ 7 ∷ 8 ∷ 9 ∷ 10 ∷ 11 ∷ 12 ∷ 13 ∷ []) refl refl)

gap_seen : verdict gap ≡ false
unfolding verdict received_is_suffix same_from sums_right publish_number store_number add_up
    keep_sum overwrite_b
gap_seen = refl
