-- ===== src/Dds/Calls.antt =====
-- The calls that src/rcllite/dds/entities.cpp makes of CycloneDDS, and a monad for code that makes
-- them. CycloneDDS is a function: what it answers to a call, after the calls before it. What stands
-- in a dds_qos_t is an argument of the call that it is for.
use rcllite.Prelude.{
  Bool, true, false, if◌then◌else◌, ℕ, ◌≡◌, refl, subst, ap, Option, none, some, List, [], ◌∷◌,
  Bytes, Result, ok, err, Error,
}
use rcllite.Dds.Qos.{DdsQos}

pub data Call : Type 0 where
  create_domain : ℕ → Option Bytes → Call
  create_qos delete_qos create_guardcondition : Call
  create_participant : ℕ → Bytes → Call
  create_publisher create_subscriber create_readcondition delete get_guid : ℕ → Call
  create_sertype : Bytes → Call
  create_topic_sertype : ℕ → Bytes → ℕ → Call
  create_writer create_reader : ℕ → ℕ → DdsQos → Call
  set_guardcondition take_guardcondition : ℕ → Call
  matched_readers matched_writers : ℕ → Call
  -- a reader of a built-in topic, by the topic's number
  create_builtin_reader : ℕ → ℕ → Call
  create_waitset : Call
  -- the waitset, the entity or `none` where there is none, and what the waitset reports for it
  waitset_attach : ℕ → Option ℕ → ℕ → Call
  writecdr : ℕ → Bytes → Call

-- A return code: DDS_RETCODE_OK, a handle, a pointer or a count that is asked for, or an error.
-- DDS_RETCODE_PRECONDITION_NOT_MET is told from the other errors.
pub data Answer : Type 0 where
  value : ℕ → Answer
  precondition_not_met failed : Answer

-- The calls so far, the newest first.
abbrev pub Trace : Type 0
Trace = List Call

-- Code over a state; what it has done stays when it throws.
abbrev pub Proc : Type 0 → Type 0 → Type 0
Proc S A = S → S × Result A

abbrev pub Io : Type 0 → Type 0
Io = Proc Trace

abbrev pub Cyclone : Type 0
Cyclone = Trace → Call → Answer

module _ {S : Type 0} where
  abbrev pub io_then : {A B : Type 0} → S × Result A → (A → Proc S B) → S × Result B
  io_then (s, ok a) f = f a s
  io_then (s, err e) f = (s, err e)

  infixl 5 ◌>>=◌
  abbrev pub ◌>>=◌ : {A B : Type 0} → Proc S A → (A → Proc S B) → Proc S B
  (m >>= f) s = io_then (m s) f

  abbrev pub return : {A : Type 0} → A → Proc S A
  return a s = (s, ok a)

  abbrev pub throw : {A : Type 0} → Error → Proc S A
  throw e s = (s, err e)

  -- What is returned, or thrown, without an effect.
  abbrev pub lift : {A : Type 0} → Result A → Proc S A
  lift r s = (s, r)

-- Calls, in front of a wider state.
abbrev pub on_trace : {T A : Type 0} → Io A → Proc (Trace × T) A
on_trace m (trace, t) = let (trace', r) = m trace in ((trace', t), r)

-- A change of the rest of the state.
abbrev pub changes : {T : Type 0} → (T → T) → Proc (Trace × T) (Unit {0})
changes f (trace, t) = ((trace, f t), ok tt)

abbrev pub answered : Error → Answer → Result ℕ
answered e (value h) = ok h
answered e precondition_not_met = err e
answered e failed = err e

-- A call whose error is thrown.
abbrev pub call : Cyclone → Call → Error → Io ℕ
call cyclone c e trace = (c ∷ trace, answered e (cyclone trace c))

-- A call whose answer the code looks at itself.
abbrev pub ask : Cyclone → Call → Io Answer
ask cyclone c trace = (c ∷ trace, ok (cyclone trace c))

-- The handle, or none.
abbrev pub handle_of : Answer → Option ℕ
handle_of (value h) = some h
handle_of precondition_not_met = none
handle_of failed = none

-- A call whose answer nobody reads.
abbrev pub perform : Call → Io (Unit {0})
perform c trace = (c ∷ trace, ok tt)

-- `m`, and dds_delete_qos behind it: always, or before what it throws.
abbrev pub delete_qos_after : {A : Type 0} → Io A → Io A
delete_qos_after m trace = let (trace', r) = m trace in (delete_qos ∷ trace', r)

abbrev qos_kept : {A : Type 0} → Trace × Result A → Trace × Result A
qos_kept (trace, ok a) = (trace, ok a)
qos_kept (trace, err e) = (delete_qos ∷ trace, err e)

abbrev pub delete_qos_if_thrown : {A : Type 0} → Io A → Io A
delete_qos_if_thrown m trace = qos_kept (m trace)

-- What runs where `m` throws, before the exception goes on.
abbrev pub cleaned : {A : Type 0} → Io (Unit {0}) → Trace × Result A → Trace × Result A
cleaned clean (trace, ok a) = (trace, ok a)
cleaned clean (trace, err e) = ((clean trace).0, err e)

abbrev pub on_throw : {A : Type 0} → Io (Unit {0}) → Io A → Io A
on_throw clean m trace = cleaned clean (m trace)

-- A postcondition of what is returned and of the calls so far; an exception meets every one.
pub record Ends {A : Type 0} (P : A → Trace → Type 0) (out : Trace × Result A) : Type 0 where
  pub holds : (a : A) → out.1 ≡ ok a → P a out.0

module _ {A : Type 0} {P : A → Trace → Type 0} where
  pub Ends-ok : (a : A) (trace : Trace) → P a trace → Ends P (trace, ok a)
  Ends-ok a trace h = record { holds = λ b e. subst (λ c. P c trace) (cc) h }

  pub Ends-err : (e : Error) (trace : Trace) → Ends P (trace, err e)
  Ends-err e trace = record { holds = λ b p. cc }

pub Ends-then :
    {A B : Type 0} {Q : A → Trace → Type 0} {P : B → Trace → Type 0} (out : Trace × Result A)
    {f : A → Io B}
    → Ends Q out
    → ((a : A) (trace : Trace) → Q a trace → Ends P (f a trace))
    → Ends P (io_then out f)
Ends-then {P} (trace, ok a) q h = h a trace (q.holds a refl)
Ends-then {P} (trace, err e) q h = Ends-err e trace

-- Whatever the first part returns.
pub Ends-bind :
    {A B : Type 0} {P : B → Trace → Type 0} (out : Trace × Result A) {f : A → Io B}
    → ((a : A) (trace : Trace) → Ends P (f a trace))
    → Ends P (io_then out f)
Ends-bind (trace, ok a) h = h a trace
Ends-bind (trace, err e) h = Ends-err e trace

pub Ends-choice :
    {A : Type 0} {P : A → Trace → Type 0} (b : Bool) (m n : Io A) (trace : Trace)
    → Ends P (m trace)
    → Ends P (n trace)
    → Ends P ((if b then m else n) trace)
Ends-choice true m n trace h k = h
Ends-choice false m n trace h k = k

pub Ends-at :
    {A : Type 0} {P : A → Trace → Type 0} {out : Trace × Result A} {trace : Trace} {a : A}
    → Ends P out
    → out ≡ (trace, ok a)
    → P a trace
Ends-at {P} {out} {trace} {a} h e =
    subst (λ l. P a l) (ap (λ o. o.0) e) (h.holds a (ap (λ o. o.1) e))

pub Ends-weaker :
    {A : Type 0} {Q P : A → Trace → Type 0} (out : Trace × Result A)
    → ((a : A) (trace : Trace) → Q a trace → P a trace)
    → Ends Q out
    → Ends P out
Ends-weaker out h q = record { holds = λ a e. h a out.0 (q.holds a e) }

pub Ends-cleaned :
    {A : Type 0} {P : A → Trace → Type 0} (clean : Io (Unit {0})) (out : Trace × Result A)
    → Ends P out
    → Ends P (cleaned clean out)
Ends-cleaned clean (trace, ok a) h = h
Ends-cleaned clean (trace, err e) h = Ends-err e (clean trace).0

-- The payloads that were handed to CycloneDDS, the newest first.
unfoldable pub sent : Trace → List Bytes
sent [] = []
sent (writecdr wr d ∷ trace) = d ∷ sent trace
sent (_ ∷ trace) = sent trace
