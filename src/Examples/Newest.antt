-- ===== src/Examples/Newest.antt =====
-- Where the newest number of node A of examples/graph/abc_graph.cpp is, also where numbers are
-- overwritten.
use rcllite.Prelude.{
  ℕ, ◌+◌, ◌<◌, ◌≡◌, refl, sym, ap, ◌∙◌, arith, true, false, List, [], ◌∷◌, ◌++◌, length, Bool-cases,
  inl, inr,
}
use rcllite.Dds.Qos.{default_qos}
use rcllite.Examples.Pipeline.{
  Pipeline, publish_number, store_number, add_up, keep_sum, overwrite_b, overwrite_c, Step,
  publishes, stores, adds, keeps, matches_b, matches_c, cancels, overwrites_b, overwrites_c, Reach,
  here, next,
}

-- The last of a queue, and `before` of an empty one.
abbrev pub ends : ℕ → List ℕ → ℕ
ends before [] = before
ends before (x ∷ xs) = ends x xs

ends-snoc : (before x : ℕ) (q : List ℕ) → ends before (q ++ (x ∷ [])) ≡ x
ends-snoc before x [] = refl
ends-snoc before x (y ∷ q) = ends-snoc y x q

ends-cut :
    (before x : ℕ) (front rest : List ℕ)
    → 0 < length rest
    → ends before (front ++ (x ∷ rest)) ≡ ends before (front ++ rest)
ends-cut before x [] [] h = absurd (omega (arith, h))
ends-cut before x [] (y ∷ rest) h = refl
ends-cut before x (z ∷ front) rest h = ends-cut z x front rest h

-- The newest number is the last on its way to B, or the last that B has added.
pub record Newest (s : Pipeline) : Type 0 where
  pub newest : 0 < s.inputs + length s.to_b → ends s.last_input s.to_b ≡ s.n
  pub unmatched : s.b_matched ≡ false → (s.to_b ≡ []) × (s.inputs ≡ 0)
  pub stored : s.storing ≡ false → s.published ≡ s.n
  pub storing : s.storing ≡ true → s.published + 1 ≡ s.n

matched : (s : Pipeline) (x : ℕ) (rest : List ℕ) → s.to_b ≡ x ∷ rest → Newest s → s.b_matched ≡ true
matched s x rest waits i = ground (arith, i.unmatched, waits)

publish_number-Newest : (s : Pipeline) → s.storing ≡ false → Newest s → Newest (publish_number s)
unfolding publish_number
publish_number-Newest s idle i = elim (Bool-cases s.b_matched) [
  | inl m ↦ rw m (record {
    newest = λ h. ends-snoc s.last_input (s.n + 1) s.to_b;
    unmatched = λ e. absurd (ground (arith, e));
    stored = λ e. absurd (ground (arith, e));
    storing = λ e. omega (arith, i.stored idle);
  })
  | inr m ↦ rw m (record {
    newest = λ h. absurd (omega (arith, h, ap length ((i.unmatched m).0), (i.unmatched m).1));
    unmatched = λ e. i.unmatched m;
    stored = λ e. absurd (ground (arith, e));
    storing = λ e. omega (arith, i.stored idle);
  })
]

overwrite_b-Newest :
    (s : Pipeline) (front : List ℕ) (x : ℕ) (rest : List ℕ)
    → s.to_b ≡ front ++ (x ∷ rest)
    → 0 < length rest
    → Newest s
    → Newest (overwrite_b front rest s)
unfolding overwrite_b
overwrite_b-Newest s front x rest waits some i = record {
  newest = λ h.
      sym (ends-cut s.last_input x front rest some)
      ∙ ap (ends s.last_input) (sym waits)
      ∙ i.newest (queue_of s.to_b front waits);
  unmatched = λ e. absurd (nothing_waits front (sym waits ∙ (i.unmatched e).0));
  stored = i.stored;
  storing = i.storing;
}
  where
    queue_of : (q f : List ℕ) → q ≡ f ++ (x ∷ rest) → 0 < s.inputs + length q
    queue_of q [] e = omega (arith, ap length e)
    queue_of q (y ∷ f) e = omega (arith, ap length e)

    nothing_waits : (f : List ℕ) → f ++ (x ∷ rest) ≡ [] → ⊥
    nothing_waits [] e = absurd (ground (arith, e))
    nothing_waits (y ∷ f) e = absurd (ground (arith, e))

Step-Newest : (s t : Pipeline) → Step s t → Newest s → Newest t
unfolding store_number add_up keep_sum overwrite_c default_qos
Step-Newest s _ (publishes idle small) i = publish_number-Newest s idle i
Step-Newest s _ (stores busy) i = record {
  newest = i.newest;
  unmatched = i.unmatched;
  stored = λ e. refl;
  storing = λ e. absurd (ground (arith, e));
}
Step-Newest s _ (adds x rest runs waits) i = record {
  newest = λ h. ap (ends s.last_input) (sym waits) ∙ i.newest (omega (arith, ap length waits));
  unmatched = λ e. absurd (ground (arith, matched s x rest waits i, e));
  stored = i.stored;
  storing = i.storing;
}
Step-Newest s _ (keeps y rest runs waits) i = record {
  newest = i.newest;
  unmatched = i.unmatched;
  stored = i.stored;
  storing = i.storing;
}
Step-Newest s _ matches_b i = record {
  newest = i.newest;
  unmatched = λ e. absurd (ground (arith, e));
  stored = i.stored;
  storing = i.storing;
}
Step-Newest s _ matches_c i = record {
  newest = i.newest;
  unmatched = i.unmatched;
  stored = i.stored;
  storing = i.storing;
}
Step-Newest s _ cancels i = record {
  newest = i.newest;
  unmatched = i.unmatched;
  stored = i.stored;
  storing = i.storing;
}
Step-Newest s _ (overwrites_b front x rest waits full) i =
    overwrite_b-Newest s front x rest waits (omega (arith, full)) i
Step-Newest s _ (overwrites_c front x rest waits full) i = record {
  newest = i.newest;
  unmatched = i.unmatched;
  stored = i.stored;
  storing = i.storing;
}

pub Reach-Newest : (s : Pipeline) → Reach s → Newest s
Reach-Newest _ here = record {
  newest = λ h. absurd (omega (arith, h));
  unmatched = λ e. (refl, refl);
  stored = λ e. refl;
  storing = λ e. absurd (ground (arith, e));
}
Reach-Newest _ (next {s = s} {t = t} r st) = Step-Newest s t st (Reach-Newest s r)
