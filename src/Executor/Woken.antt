-- ===== src/Executor/Woken.antt =====
-- spin and cancel on two threads (src/rcllite/executor.cpp): when spin returns.
use rcllite.Prelude.{
  ℕ, zero, suc, ◌≤◌, ◌≡◌, ◌≢◌, ◌⊎◌, inl, inr, Bool-cases, ltb, ◌<◌, ◌||◌, refl, sym, ◌∙◌, subst,
  ◌-◌, arith, Bool, true, false, if◌then◌else◌,
}
use rcllite.Executor.Threads.{
  Spinner, resetting, testing, waiting, taking, noting, returned, Wait, max_triggers, Canceller,
  before_cancel, requested, finished, Threads, begin, spin_step, cancel_step, Reach, here, spins,
  cancels, spin_on,
}

-- What wakes the spinning thread is still there, or it knows.
abbrev WillSee : Bool → Bool → Spinner → Type 0
WillSee flag guard resetting = guard ≡ true
WillSee flag guard testing = (flag ≡ true) ⊎ (guard ≡ true)
WillSee flag guard waiting = guard ≡ true
WillSee flag guard taking = guard ≡ true
WillSee flag guard noting = Unit
WillSee flag guard returned = Unit

-- Before a cancel the spinning thread sees none.
abbrev SeesNone : Bool → Bool → Spinner → Type 0
SeesNone flag guard resetting = guard ≡ false
SeesNone flag guard testing = (flag ≡ false) × (guard ≡ false)
SeesNone flag guard waiting = (flag ≡ false) × (guard ≡ false)
SeesNone flag guard _ = ⊥

abbrev IsLive : Threads → Type 0
IsLive s = s.canceller ≡ finished → WillSee s.cancel_requested s.guard s.spinner

abbrev IsIdle : Threads → Type 0
IsIdle s = s.canceller ≡ before_cancel → SeesNone s.cancel_requested s.guard s.spinner

-- The accesses left before spin returns.
abbrev left : Bool → Spinner → ℕ
left flag resetting = 6
left flag testing = if flag then 1 else 5
left flag waiting = 4
left flag taking = 3
left flag noting = 2
left flag returned = 0

abbrev threads : Bool → Bool → Spinner → Canceller → Threads
threads flag guard sp c = record {
  cancel_requested = flag;
  guard = guard;
  spinner = sp;
  canceller = c;
}

-- A step keeps what will wake the thread, and takes one from the accesses that are left.
seen :
    (others : Wait) (flag guard : Bool) (sp : Spinner) (c : Canceller)
    → WillSee flag guard sp
    → let t = spin_step others (threads flag guard sp c) in
      WillSee t.cancel_requested t.guard t.spinner
      × (others.others < max_triggers → left t.cancel_requested t.spinner ≤ left flag sp - 1)
unfolding spin_step
seen others flag guard resetting c h = (inr h, λ few. omega arith)
seen others true guard testing c h = (tt, λ few. omega arith)
seen others false guard testing c (inl e) = absurd (ground (arith, e))
seen others false guard testing c (inr e) = (e, λ few. omega arith)
seen others flag true waiting c h =
    elim (Bool-cases (ltb others.others max_triggers || others.reported)) [
      | inl found ↦ rw found (refl, λ few. omega arith)
      | inr unnoticed ↦ rw unnoticed (inr refl, λ few. absurd (ground (arith, unnoticed, few)))
    ]
seen others flag false waiting c h = absurd (ground (arith, h))
seen others flag guard taking c h = (tt, λ few. omega arith)
seen others flag guard noting c h = (inl refl, λ few. omega arith)
seen others flag guard returned c h = (tt, λ few. omega arith)

unseen :
    (others : Wait) (flag guard : Bool) (sp : Spinner) (c : Canceller)
    → SeesNone flag guard sp
    → let t = spin_step others (threads flag guard sp c) in
      SeesNone t.cancel_requested t.guard t.spinner
unfolding spin_step
unseen others flag guard resetting c h = (refl, h)
unseen others true guard testing c h = absurd (ground (arith, h.0))
unseen others false guard testing c h = h
unseen others flag true waiting c h = absurd (ground (arith, h.1))
unseen others flag false waiting c h = elim (Bool-cases (ltb 0 others.others)) [
  | inl some ↦ rw some h
  | inr nothing ↦ rw nothing h
]
unseen others flag guard taking c h = elim h [ ]
unseen others flag guard noting c h = elim h [ ]
unseen others flag guard returned c h = elim h [ ]

spin_step-canceller : (others : Wait) (s : Threads) → (spin_step others s).canceller ≡ s.canceller
unfolding spin_step
spin_step-canceller others s = ground arith

requested-live : (flag : Bool) (sp : Spinner) → WillSee flag true sp
requested-live flag resetting = refl
requested-live flag testing = inr refl
requested-live flag waiting = refl
requested-live flag taking = refl
requested-live flag noting = tt
requested-live flag returned = tt

cancel_step-IsLive :
    (flag guard : Bool) (sp : Spinner) (c : Canceller)
    → IsLive (threads flag guard sp c)
    → IsLive (cancel_step (threads flag guard sp c))
unfolding cancel_step
cancel_step-IsLive flag guard sp before_cancel h e = absurd (ground (arith, e))
cancel_step-IsLive flag guard sp requested h e = requested-live flag sp
cancel_step-IsLive flag guard sp finished h e = h e

cancel_step-IsIdle :
    (flag guard : Bool) (sp : Spinner) (c : Canceller)
    → IsIdle (cancel_step (threads flag guard sp c))
unfolding cancel_step
cancel_step-IsIdle flag guard sp before_cancel e = absurd (ground (arith, e))
cancel_step-IsIdle flag guard sp requested e = absurd (ground (arith, e))
cancel_step-IsIdle flag guard sp finished e = absurd (ground (arith, e))

Reach-IsLive : (f g : Bool) (s : Threads) → Reach (begin f g) s → IsLive s
Reach-IsLive f g _ here e = absurd (ground (arith, e))
Reach-IsLive f g _ (spins {t} others r) e =
    (seen others t.cancel_requested t.guard t.spinner t.canceller
      (Reach-IsLive f g t r (sym (spin_step-canceller others t) ∙ e))).0
Reach-IsLive f g _ (cancels {t} r) e =
    cancel_step-IsLive t.cancel_requested t.guard t.spinner t.canceller (Reach-IsLive f g t r) e

Reach-IsIdle : (f : Bool) (s : Threads) → Reach (begin f false) s → IsIdle s
Reach-IsIdle f _ here e = refl
Reach-IsIdle f _ (spins {t} others r) e =
    unseen others t.cancel_requested t.guard t.spinner t.canceller
      (Reach-IsIdle f t r (sym (spin_step-canceller others t) ∙ e))
Reach-IsIdle f _ (cancels {t} r) e =
    cancel_step-IsIdle t.cancel_requested t.guard t.spinner t.canceller e

none_left : (flag : Bool) (sp : Spinner) → left flag sp ≤ 0 → sp ≡ returned
none_left flag resetting h = absurd (omega arith)
none_left true testing h = absurd (omega arith)
none_left false testing h = absurd (omega arith)
none_left flag waiting h = absurd (omega arith)
none_left flag taking h = absurd (omega arith)
none_left flag noting h = absurd (omega arith)
none_left flag returned h = refl

spin_on-returned :
    (rounds : ℕ) (waits : ℕ → Wait) (s : Threads)
    → ((n : ℕ) → (waits n).others < max_triggers)
    → WillSee s.cancel_requested s.guard s.spinner
    → left s.cancel_requested s.spinner ≤ rounds
    → (spin_on rounds waits s).spinner ≡ returned
unfolding spin_on
spin_on-returned zero waits s few w h = none_left s.cancel_requested s.spinner h
spin_on-returned (suc rounds) waits s few w h =
    let (w', less) = seen (waits rounds) s.cancel_requested s.guard s.spinner s.canceller w in
    spin_on-returned rounds waits (spin_step (waits rounds) s) few w'
      (omega (arith, less (few rounds), h))

at_most : (flag : Bool) (sp : Spinner) → left flag sp ≤ 6
at_most flag resetting = omega arith
at_most true testing = omega arith
at_most false testing = omega arith
at_most flag waiting = omega arith
at_most flag taking = omega arith
at_most flag noting = omega arith
at_most flag returned = omega arith

-- In any interleaving of spin and cancel, whatever the flag and the guard were before and
-- whatever earlier waits reported: once cancel has finished, spin returns within six steps of
-- its own in which fewer than 64 other conditions are triggered, also where its reset of the
-- flag came after cancel had set it.
pub cancel_not_lost :
    (f g : Bool) (s : Threads) (waits : ℕ → Wait)
    → Reach (begin f g) s
    → s.canceller ≡ finished
    → ((n : ℕ) → (waits n).others < max_triggers)
    → (spin_on 6 waits s).spinner ≡ returned
cancel_not_lost f g s waits r e few =
    spin_on-returned 6 waits s few (Reach-IsLive f g s r e) (at_most s.cancel_requested s.spinner)

-- In any interleaving, where the guard was not triggered before, spin returns only when cancel
-- has begun.
pub returned_only_cancelled :
    (f : Bool) (s : Threads)
    → Reach (begin f false) s
    → s.spinner ≡ returned
    → s.canceller ≢ before_cancel
returned_only_cancelled f s r e idle =
    subst (λ sp. SeesNone s.cancel_requested s.guard sp) e (Reach-IsIdle f s r idle)
