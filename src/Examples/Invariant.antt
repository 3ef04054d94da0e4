-- ===== src/Examples/Invariant.antt =====
-- The invariant of the three nodes of examples/graph/abc_graph.cpp, at the start and where A publishes.
use rcllite.Prelude.{
  ℕ, ◌+◌, ◌-◌, ◌<◌, ◌≤◌, ◌≡◌, refl, arith, true, false, List, [], ◌∷◌, ◌++◌, length, length-append,
  Bool-cases, inl, inr,
}
use rcllite.Examples.Sums.{numbers_from, sums_from, total_of, queued-snoc}
use rcllite.Examples.Pipeline.{Pipeline, start, publish_number}

-- A and the samples on their way to B.
pub record Upstream (s : Pipeline) : Type 0 where
  pub behind : length s.to_b ≤ s.n
  pub queued : s.to_b ≡ numbers_from (s.n + 1 - length s.to_b) (length s.to_b)
  pub unmatched : s.b_matched ≡ false → (s.to_b ≡ []) × (s.inputs ≡ 0)
  pub stored : s.storing ≡ false → s.published ≡ s.n
  pub storing : s.storing ≡ true → s.published + 1 ≡ s.n

-- What B has seen: a window of A's numbers, without a gap before those on their way.
pub record Window (s : Pipeline) : Type 0 where
  pub empty : s.inputs ≡ 0 → s.first_input ≡ 0
  pub from : 0 < s.inputs → 0 < s.first_input
  pub to : 0 < s.inputs → s.last_input + 1 ≡ s.first_input + s.inputs
  pub upto : 0 < s.inputs → s.last_input + length s.to_b ≡ s.n
  pub sums : s.published_sums ≡ sums_from 0 (numbers_from s.first_input s.inputs)
  pub total : s.sum ≡ total_of 0 (numbers_from s.first_input s.inputs)

-- What C has heard and will hear are the last of B's sums.
pub record Downstream (s : Pipeline) : Type 0 where
  pub lost : List ℕ
  pub tail : s.published_sums ≡ lost ++ (s.received ++ s.to_c)
  pub unmatched : s.c_matched ≡ false → (s.received ≡ []) × (s.to_c ≡ [])

pub record Inv (s : Pipeline) : Type 0 where
  pub upstream : Upstream s
  pub window : Window s
  pub downstream : Downstream s

pub start-Inv : Inv start
start-Inv = record {
  upstream = record {
    behind = omega arith;
    queued = refl;
    unmatched = λ e. (refl, refl);
    stored = λ e. refl;
    storing = λ e. absurd (ground (arith, e));
  };
  window = record {
    empty = λ e. refl;
    from = λ h. absurd (omega (arith, h));
    to = λ h. absurd (omega (arith, h));
    upto = λ h. absurd (omega (arith, h));
    sums = refl;
    total = refl;
  };
  downstream = record { lost = []; tail = refl; unmatched = λ e. (refl, refl) };
}

pub publish_number-Upstream :
    (s : Pipeline) → s.storing ≡ false → Upstream s → Upstream (publish_number s)
unfolding publish_number
publish_number-Upstream s idle u = elim (Bool-cases s.b_matched) [
  | inl m ↦ rw m (record {
    behind = omega (arith, length-append s.to_b ((s.n + 1) ∷ []), u.behind);
    queued = queued-snoc s.n s.to_b u.behind u.queued;
    unmatched = λ e. absurd (ground (arith, e));
    stored = λ e. absurd (ground (arith, e));
    storing = λ e. omega (arith, u.stored idle);
  })
  | inr m ↦ rw m (record {
    behind = omega (arith, u.behind);
    queued = rw ((u.unmatched m).0) refl;
    unmatched = λ e. u.unmatched m;
    stored = λ e. absurd (ground (arith, e));
    storing = λ e. omega (arith, u.stored idle);
  })
]

pub publish_number-Window : (s : Pipeline) → Upstream s → Window s → Window (publish_number s)
unfolding publish_number
publish_number-Window s u w = record {
  empty = w.empty;
  from = w.from;
  to = w.to;
  upto = λ h. elim (Bool-cases s.b_matched) [
    | inl m ↦ rw m (omega (arith, length-append s.to_b ((s.n + 1) ∷ []), w.upto h))
    | inr m ↦ absurd (omega (arith, (u.unmatched m).1, h))
  ];
  sums = w.sums;
  total = w.total;
}
