-- ===== src/Ffi/Outlives.antt =====
-- What a member that runs on an entry of src/ffi/rcllite_ffi.cpp can rely on.
use rcllite.Prelude.{ℕ, ◌+◌, ◌-◌, ◌<◌, ◌≡◌, refl, arith, Bool, true, false}
use rcllite.Ffi.Race.{
  Destroyer, outside, holding, cancelled, gone, SharedEntry, release, touch, take_entry, SharedStep,
  look_up, use_entry, leave, take_out, cancel_spin, drop_entry, SharedReach, shared_start,
  shared_next, OwnedEntry, reset_entry, OwnedStep, owned_look_up, owned_use, owned_leave,
  owned_take, owned_reset, OwnedReach, owned_start, owned_next, owned_created,
}

-- The pointers that the registry and the destroy have.
abbrev one_if : Bool → ℕ
one_if true = 1
one_if false = 0

abbrev held_by : Destroyer → ℕ
held_by outside = 0
held_by holding = 1
held_by cancelled = 1
held_by gone = 0

record Inv (s : SharedEntry) : Type 0 where
  counted : s.use_count ≡ one_if s.registered + s.users + held_by s.destroyer
  lives : 0 < s.use_count → s.alive ≡ true
  freed : s.use_count ≡ 0 → s.alive ≡ false
  clean : s.used_after_free ≡ false

release-lives :
    (s : SharedEntry)
    → (0 < s.use_count → s.alive ≡ true)
    → 0 < (release s).use_count
    → (release s).alive ≡ true
unfolding release
release-lives s l h = ground (arith, l, h)

release-freed :
    (s : SharedEntry)
    → (s.use_count ≡ 0 → s.alive ≡ false)
    → (release s).use_count ≡ 0
    → (release s).alive ≡ false
unfolding release
release-freed s l h = ground (arith, l, h)

Step-Inv : (s t : SharedEntry) → SharedStep s t → Inv s → Inv t
unfolding release touch take_entry
Step-Inv s _ (look_up known) i = record {
  counted = omega (arith, i.counted);
  lives = λ h. i.lives (ground (arith, i.counted, known));
  freed = λ h. absurd (omega (arith, h));
  clean = i.clean;
}
Step-Inv s _ (use_entry some) i = record {
  counted = i.counted;
  lives = i.lives;
  freed = i.freed;
  clean = ground (arith, i.clean, i.lives (omega (arith, i.counted)));
}
Step-Inv s _ (leave some) i = record {
  counted = omega (arith, i.counted);
  lives = release-lives (record s { users = s.users - 1 }) i.lives;
  freed = release-freed (record s { users = s.users - 1 }) i.freed;
  clean = i.clean;
}
Step-Inv s _ (take_out idle known) i = record {
  counted = ground (arith, i.counted, idle, known);
  lives = λ h. ground (arith, i.lives, i.counted, known);
  freed = λ h. absurd (ground (arith, i.counted, known, h));
  clean = i.clean;
}
Step-Inv s _ (cancel_spin holds) i = record {
  counted = ground (arith, i.counted, holds);
  lives = i.lives;
  freed = i.freed;
  clean = ground (arith, i.clean, i.lives, i.counted, holds);
}
Step-Inv s _ (drop_entry holds) i = record {
  counted = ground (arith, i.counted, holds);
  lives = release-lives (record s { destroyer = gone }) i.lives;
  freed = release-freed (record s { destroyer = gone }) i.freed;
  clean = i.clean;
}

Reach-Inv : (s : SharedEntry) → SharedReach s → Inv s
Reach-Inv _ shared_start = record {
  counted = refl;
  lives = λ h. refl;
  freed = λ h. absurd (omega (arith, h));
  clean = refl;
}
Reach-Inv _ (shared_next {s = s} r st) = Step-Inv s _ st (Reach-Inv s r)

-- In any interleaving of members that look a node up, use it and end, on any number of threads,
-- with the destroy of its handle: nothing uses the entry when it is gone, it is there while a
-- member holds it, and it is gone when the destroy and all members have ended.
pub node_outlives :
    (s : SharedEntry)
    → SharedReach s
    → (s.used_after_free ≡ false)
      × (0 < s.users → s.alive ≡ true)
      × (s.registered ≡ false → s.users ≡ 0 → s.destroyer ≡ gone → s.alive ≡ false)
node_outlives s r =
    let i = Reach-Inv s r in
    (
      i.clean,
      λ h. i.lives (omega (arith, i.counted, h)),
      λ known unused over. i.freed (ground (arith, i.counted, known, unused, over)),
    )

-- Before its reset, a graph executor is there; from the destroy on, nobody finds it.
record Owned (s : OwnedEntry) : Type 0 where
  there : s.alive ≡ false → s.destroyer ≡ gone
  hidden : s.registered ≡ true → s.destroyer ≡ outside
  unharmed : s.used_after_free ≡ true → s.destroyer ≡ gone

OwnedStep-Owned : (s t : OwnedEntry) → OwnedStep s t → Owned s → Owned t
unfolding reset_entry
OwnedStep-Owned s _ (owned_look_up known) o = record {
  there = o.there;
  hidden = o.hidden;
  unharmed = o.unharmed;
}
OwnedStep-Owned s _ (owned_use some) o = record {
  there = o.there;
  hidden = o.hidden;
  unharmed = λ e. ground (arith, o.there, o.unharmed, e);
}
OwnedStep-Owned s _ (owned_leave some) o = record {
  there = o.there;
  hidden = o.hidden;
  unharmed = o.unharmed;
}
OwnedStep-Owned s _ (owned_take idle known) o = record {
  there = λ e. absurd (ground (arith, o.there e, idle));
  hidden = λ e. absurd (ground (arith, e));
  unharmed = λ e. absurd (ground (arith, o.unharmed e, idle));
}
OwnedStep-Owned s _ (owned_reset holds) o = record {
  there = λ e. refl;
  hidden = λ e. absurd (ground (arith, o.hidden e, holds));
  unharmed = λ e. refl;
}

Reach-Owned : (s : OwnedEntry) → OwnedReach owned_created s → Owned s
Reach-Owned _ owned_start = record {
  there = λ e. absurd (ground (arith, e));
  hidden = λ e. refl;
  unharmed = λ e. absurd (ground (arith, e));
}
Reach-Owned _ (owned_next {s = s} r st) = OwnedStep-Owned s _ st (Reach-Owned s r)

-- Behind a destroy that nobody was in the way of.
record Deserted (s : OwnedEntry) : Type 0 where
  unknown : s.registered ≡ false
  unused : s.users ≡ 0
  harmless : s.used_after_free ≡ false

OwnedStep-Deserted : (s t : OwnedEntry) → OwnedStep s t → Deserted s → Deserted t
unfolding reset_entry
OwnedStep-Deserted s _ (owned_look_up known) d = absurd (ground (arith, d.unknown, known))
OwnedStep-Deserted s _ (owned_use some) d = absurd (omega (arith, d.unused, some))
OwnedStep-Deserted s _ (owned_leave some) d = absurd (omega (arith, d.unused, some))
OwnedStep-Deserted s _ (owned_take idle known) d = absurd (ground (arith, d.unknown, known))
OwnedStep-Deserted s _ (owned_reset holds) d = record {
  unknown = d.unknown;
  unused = d.unused;
  harmless = d.harmless;
}

Reach-Deserted : (s t : OwnedEntry) → Deserted s → OwnedReach s t → Deserted t
Reach-Deserted s _ d owned_start = d
Reach-Deserted s _ d (owned_next {s = m} r st) = OwnedStep-Deserted m _ st (Reach-Deserted s m d r)

not_true : (b : Bool) → (b ≡ true → ⊥) → b ≡ false
not_true b h = ground (arith, h)

-- In any interleaving of members that use a graph executor with the destroy of its handle: where
-- no member runs when the destroy resets it, nothing uses it when it is gone, before or after.
pub graph_destroyed_alone :
    (s t : OwnedEntry)
    → OwnedReach owned_created s
    → s.destroyer ≡ holding
    → s.users ≡ 0
    → OwnedReach (reset_entry s) t
    → (s.used_after_free ≡ false) × (t.used_after_free ≡ false)
unfolding reset_entry
graph_destroyed_alone s t r holds alone later =
    let o = Reach-Owned s r in
    let clean : s.used_after_free ≡ false =
      not_true s.used_after_free (λ e. ground (arith, o.unharmed e, holds)) in
    let after : Deserted (reset_entry s) = record {
      unknown = not_true s.registered (λ e. ground (arith, o.hidden e, holds));
      unused = alone;
      harmless = clean;
    } in
    (clean, (Reach-Deserted (reset_entry s) t after later).harmless)
