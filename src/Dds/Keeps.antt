-- ===== src/Dds/Keeps.antt =====
-- Quantities of a trace that a computation leaves alone, whether it returns or throws.
use rcllite.Prelude.{◌≡◌, ◌∙◌, Result, ok, err}
use rcllite.Dds.Calls.{Trace, Io, io_then, cleaned}

-- However it ends, the view of its trace is `v`.
pub record Stays {V A : Type 0} (view : Trace → V) (v : V) (out : Trace × Result A) : Type 0 where
  pub stays : view out.0 ≡ v

abbrev pub Keeps : {V A : Type 0} → (Trace → V) → Io A → Type 0
Keeps view m = (trace : Trace) → Stays view (view trace) (m trace)

pub Stays-then :
    {V A B : Type 0} {view : Trace → V} {v : V} (out : Trace × Result A) {f : A → Io B}
    → Stays view v out
    → ((a : A) → Keeps view (f a))
    → Stays view v (io_then out f)
Stays-then (t, ok a) h k = record { stays = (k a t).stays ∙ h.stays }
Stays-then (t, err e) h k = record { stays = h.stays }

pub Stays-cleaned :
    {V A : Type 0} {view : Trace → V} {v : V} (clean : Io (Unit {0})) (out : Trace × Result A)
    → Keeps view clean
    → Stays view v out
    → Stays view v (cleaned clean out)
Stays-cleaned clean (t, ok a) k h = h
Stays-cleaned clean (t, err e) k h = record { stays = (k t).stays ∙ h.stays }
