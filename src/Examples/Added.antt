-- ===== src/Examples/Added.antt =====
-- The callbacks of B and C of examples/graph/abc_graph.cpp, and the invariant.
use rcllite.Prelude.{
  ℕ, suc, ◌+◌, ◌-◌, ◌%◌, ◌^◌, ◌<◌, ◌≡◌, sym, ap, ◌∙◌, arith, true, List, [], ◌∷◌, ◌++◌,
  append_assoc, append-nil, length, if◌then◌else◌, ◌==◌, Bool-cases, inl, inr,
}
use rcllite.Examples.Sums.{
  numbers_from, sums_from, sums_from-snoc, total_of-snoc, dequeued, window-snoc, window_end,
}
use rcllite.Examples.Pipeline.{Pipeline, add_up, keep_sum}
use rcllite.Examples.Invariant.{Upstream, Window, Downstream}

module _ (s : Pipeline) (x : ℕ) (rest : List ℕ) (waits : s.to_b ≡ x ∷ rest) (u : Upstream s)
    (w : Window s) where
  in_order : (x + length rest ≡ s.n) × (rest ≡ numbers_from (x + 1) (length rest))
  in_order =
      let long : length s.to_b ≡ suc (length rest) = ap length waits in
      let (head, tail) =
        dequeued x (s.n + 1 - length s.to_b) (length s.to_b) rest (sym waits ∙ u.queued) long in
      (
        omega (arith, head, long, u.behind),
        tail ∙ ap (λ a. numbers_from (a + 1) (length rest)) (sym head),
      )

  is_matched : s.b_matched ≡ true
  is_matched = ground (arith, u.unmatched, waits)

  pub add_up-Upstream : Upstream (add_up x rest s)
  unfolding add_up
  add_up-Upstream = record {
    behind = omega (arith, in_order.0);
    queued =
        in_order.1
        ∙ ap (λ a. numbers_from a (length rest))
            (start_of (x + 1) (s.n + 1) (length rest) (omega (arith, in_order.0)));
    unmatched = λ e. absurd (ground (arith, is_matched, e));
    stored = u.stored;
    storing = u.storing;
  }
    where
      start_of : (a n k : ℕ) → a + k ≡ n → a ≡ n - k
      start_of a n k e = omega arith

  follows : 0 < s.inputs → x ≡ s.first_input + s.inputs
  follows h = omega (arith, w.to h, w.upto h, in_order.0, ap length waits)

  longer :
      numbers_from (if s.first_input == 0 then x else s.first_input) (s.inputs + 1)
      ≡ numbers_from s.first_input s.inputs ++ (x ∷ [])
  longer = window-snoc x s.inputs s.first_input w.empty w.from follows

  positive : 0 < x
  positive = omega (arith, in_order.0, u.behind, ap length waits)

  pub add_up-Window : Window (add_up x rest s)
  unfolding add_up
  add_up-Window = record {
    empty = λ e. absurd (omega (arith, e));
    from = λ h. ground (arith, positive);
    to = λ h. window_end x s.inputs s.first_input w.empty w.from follows;
    upto = λ h. in_order.0;
    sums = rw longer (
        ap (λ l. l ++ (((s.sum + x) % 2 ^ 64) ∷ [])) w.sums
        ∙ ap (λ t. sums_from 0 (numbers_from s.first_input s.inputs) ++ (((t + x) % 2 ^ 64) ∷ []))
            w.total
        ∙ sym (sums_from-snoc 0 x (numbers_from s.first_input s.inputs)));
    total = rw longer (
        ap (λ t. (t + x) % 2 ^ 64) w.total
        ∙ sym (total_of-snoc 0 x (numbers_from s.first_input s.inputs)));
  }

  pub add_up-Downstream : Downstream s → Downstream (add_up x rest s)
  unfolding add_up
  add_up-Downstream d = elim (Bool-cases s.c_matched) [
    | inl m ↦ rw m (record {
      lost = d.lost;
      tail =
          ap (λ l. l ++ (((s.sum + x) % 2 ^ 64) ∷ [])) d.tail
          ∙ append_assoc d.lost (s.received ++ s.to_c) (((s.sum + x) % 2 ^ 64) ∷ [])
          ∙ ap (λ l. d.lost ++ l) (append_assoc s.received s.to_c (((s.sum + x) % 2 ^ 64) ∷ []));
      unmatched = λ e. absurd (ground (arith, e));
    })
    | inr m ↦ rw m (record {
      lost = s.published_sums ++ (((s.sum + x) % 2 ^ 64) ∷ []);
      tail = rw ((d.unmatched m).0, (d.unmatched m).1) (sym (append-nil _));
      unmatched = λ e. d.unmatched m;
    })
  ]

pub keep_sum-Downstream :
    (s : Pipeline) (y : ℕ) (rest : List ℕ)
    → s.to_c ≡ y ∷ rest
    → Downstream s
    → Downstream (keep_sum y rest s)
unfolding keep_sum
keep_sum-Downstream s y rest waits d = record {
  lost = d.lost;
  tail =
      d.tail
      ∙ ap (λ q. d.lost ++ (s.received ++ q)) waits
      ∙ ap (λ l. d.lost ++ l) (sym (append_assoc s.received (y ∷ []) rest));
  unmatched = λ e. absurd (ground (arith, d.unmatched e, waits));
}
