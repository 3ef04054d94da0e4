-- ===== src/Examples/Counted.antt =====
-- The invariant of the three nodes of examples/graph/abc_graph.cpp, over runs that overwrite nothing.
use rcllite.Prelude.{◌≡◌, refl, arith, true, false}
use rcllite.Examples.Pipeline.{
  Pipeline, publish_number, store_number, add_up, keep_sum, overwrite_b, overwrite_c, Step,
  publishes, stores, adds, keeps, matches_b, matches_c, cancels, overwrites_b, overwrites_c, Reach,
  here, next,
}
use rcllite.Examples.Invariant.{
  Upstream, Window, Downstream, Inv, start-Inv, publish_number-Upstream, publish_number-Window,
}
use rcllite.Examples.Added.{add_up-Upstream, add_up-Window, add_up-Downstream, keep_sum-Downstream}

-- What the three look at, where a step leaves it alone.
Upstream-as :
    (s t : Pipeline)
    → (t.n ≡ s.n)
      × (t.storing ≡ s.storing)
      × (t.published ≡ s.published)
      × (t.b_matched ≡ s.b_matched)
      × (t.to_b ≡ s.to_b)
      × (t.inputs ≡ s.inputs)
    → Upstream s
    → Upstream t
Upstream-as s t (a, b, c, d, e, f) u = record {
  behind = rw (a, e) u.behind;
  queued = rw (a, e) u.queued;
  unmatched = rw (d, e, f) u.unmatched;
  stored = rw (a, b, c) u.stored;
  storing = rw (a, b, c) u.storing;
}

Window-as :
    (s t : Pipeline)
    → (t.n ≡ s.n)
      × (t.to_b ≡ s.to_b)
      × (t.sum ≡ s.sum)
      × (t.inputs ≡ s.inputs)
      × (t.first_input ≡ s.first_input)
      × (t.last_input ≡ s.last_input)
      × (t.published_sums ≡ s.published_sums)
    → Window s
    → Window t
Window-as s t (a, b, c, d, e, f, g) w = record {
  empty = rw (d, e) w.empty;
  from = rw (d, e) w.from;
  to = rw (d, e, f) w.to;
  upto = rw (a, b, d, f) w.upto;
  sums = rw (d, e, g) w.sums;
  total = rw (c, d, e) w.total;
}

Downstream-as :
    (s t : Pipeline)
    → (t.published_sums ≡ s.published_sums) × (t.received ≡ s.received) × (t.to_c ≡ s.to_c)
    → (t.c_matched ≡ false → s.c_matched ≡ false)
    → Downstream s
    → Downstream t
Downstream-as s t (a, b, c) e d = record {
  lost = d.lost;
  tail = rw (a, b, c) d.tail;
  unmatched = λ m. rw (b, c) (d.unmatched (e m));
}

store_number-Upstream : (s : Pipeline) → Upstream s → Upstream (store_number s)
unfolding store_number
store_number-Upstream s u = record {
  behind = u.behind;
  queued = u.queued;
  unmatched = u.unmatched;
  stored = λ e. refl;
  storing = λ e. absurd (ground (arith, e));
}

matched-Upstream : (s : Pipeline) → Upstream s → Upstream (record s { b_matched = true })
matched-Upstream s u = record {
  behind = u.behind;
  queued = u.queued;
  unmatched = λ e. absurd (ground (arith, e));
  stored = u.stored;
  storing = u.storing;
}

-- No step takes back that a sample was overwritten.
stays_whole : (s t : Pipeline) → Step s t → t.overwritten ≡ false → s.overwritten ≡ false
unfolding publish_number store_number add_up keep_sum overwrite_b overwrite_c
stays_whole s _ (publishes idle small) e = e
stays_whole s _ (stores busy) e = e
stays_whole s _ (adds x rest runs waits) e = e
stays_whole s _ (keeps y rest runs waits) e = e
stays_whole s _ matches_b e = e
stays_whole s _ matches_c e = e
stays_whole s _ cancels e = e
stays_whole s _ (overwrites_b front x rest waits full) e = absurd (ground (arith, e))
stays_whole s _ (overwrites_c front x rest waits full) e = absurd (ground (arith, e))

Step-Inv : (s t : Pipeline) → Step s t → t.overwritten ≡ false → Inv s → Inv t
unfolding publish_number store_number keep_sum overwrite_b overwrite_c
Step-Inv s _ (overwrites_b front x rest waits full) whole i = absurd (ground (arith, whole))
Step-Inv s _ (overwrites_c front x rest waits full) whole i = absurd (ground (arith, whole))
Step-Inv s _ (publishes idle small) whole i = record {
  upstream = publish_number-Upstream s idle i.upstream;
  window = publish_number-Window s i.upstream i.window;
  downstream = Downstream-as s _ (refl, refl, refl) (λ m. m) i.downstream;
}
Step-Inv s _ (stores busy) whole i = record {
  upstream = store_number-Upstream s i.upstream;
  window = Window-as s _ (refl, refl, refl, refl, refl, refl, refl) i.window;
  downstream = Downstream-as s _ (refl, refl, refl) (λ m. m) i.downstream;
}
Step-Inv s _ (adds x rest runs waits) whole i = record {
  upstream = add_up-Upstream s x rest waits i.upstream i.window;
  window = add_up-Window s x rest waits i.upstream i.window;
  downstream = add_up-Downstream s x rest waits i.upstream i.window i.downstream;
}
Step-Inv s _ (keeps y rest runs waits) whole i = record {
  upstream = Upstream-as s _ (refl, refl, refl, refl, refl, refl) i.upstream;
  window = Window-as s _ (refl, refl, refl, refl, refl, refl, refl) i.window;
  downstream = keep_sum-Downstream s y rest waits i.downstream;
}
Step-Inv s _ matches_b whole i = record {
  upstream = matched-Upstream s i.upstream;
  window = Window-as s _ (refl, refl, refl, refl, refl, refl, refl) i.window;
  downstream = Downstream-as s _ (refl, refl, refl) (λ m. m) i.downstream;
}
Step-Inv s _ matches_c whole i = record {
  upstream = Upstream-as s _ (refl, refl, refl, refl, refl, refl) i.upstream;
  window = Window-as s _ (refl, refl, refl, refl, refl, refl, refl) i.window;
  downstream = Downstream-as s _ (refl, refl, refl) (λ m. absurd (ground (arith, m))) i.downstream;
}
Step-Inv s _ cancels whole i = record {
  upstream = Upstream-as s _ (refl, refl, refl, refl, refl, refl) i.upstream;
  window = Window-as s _ (refl, refl, refl, refl, refl, refl, refl) i.window;
  downstream = Downstream-as s _ (refl, refl, refl) (λ m. m) i.downstream;
}

pub Reach-Inv : (s : Pipeline) → Reach s → s.overwritten ≡ false → Inv s
Reach-Inv _ here whole = start-Inv
Reach-Inv _ (next {s = s} {t = t} r st) whole =
    Step-Inv s t st whole (Reach-Inv s r (stays_whole s t st whole))
