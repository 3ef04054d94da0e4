-- ===== src/Prelude/Outcome.antt =====
-- rcl::Error over a vila::Status (src/rcllite/exception.hpp), and results that may be one. The
-- status code is the constructor. The message is kept as the format string with its arguments,
-- since the formatting itself is vila's. A value_error is the ValueError of the Python bindings.
use Prim.Native.String.{String}
use mathlib.Core.Bool.{Bool, true, false}
use mathlib.Core.List.{List}
use Prim.Native.Nat.{ℕ}
use mathlib.Core.Path.{◌≡◌, refl, subst}
use rcllite.Prelude.Tests.{if◌then◌else◌}

pub data Error : Type 0 where
  invalid_arguments internal_error wait_timeout value_error : String → List (List ℕ) → Error

pub data Result {ℓ} (A : Type ℓ) : Type ℓ where
  ok : A → Result A
  err : Error → Result A

infixl 5 ◌>>=◌
abbrev pub ◌>>=◌ {ℓ κ} : {A : Type ℓ} {B : Type κ} → Result A → (A → Result B) → Result B
ok a >>= f = f a
err e >>= f = err e

-- `if (bad) throw e;` in front of the rest of a function.
abbrev pub unless {ℓ} : {A : Type ℓ} → Bool → Error → Result A → Result A
unless true e rest = err e
unless false e rest = rest

-- A postcondition of what is returned; an exception meets every one.
pub record Ensures {A : Type 0} (P : A → Type 0) (m : Result A) : Type 0 where
  pub holds : (a : A) → m ≡ ok a → P a

module _ {A : Type 0} {P : A → Type 0} where
  pub Ensures-ok : (a : A) → P a → Ensures P (ok a)
  Ensures-ok a h = record { holds = λ b e. subst P (cc) h }

  pub Ensures-if :
      (b : Bool) {x y : Result A} → Ensures P x → Ensures P y → Ensures P (if b then x else y)
  Ensures-if true h k = h
  Ensures-if false h k = k

pub Ensures-bind :
    {A B : Type 0} {P : B → Type 0} (m : Result A) {f : A → Result B}
    → ((a : A) → Ensures P (f a))
    → Ensures P (m >>= f)
Ensures-bind (ok a) h = h a
Ensures-bind (err e) h = record { holds = λ b e. cc }

-- The rest of a function may use what its first part ensures.
pub Ensures-then :
    {A B : Type 0} {Q : A → Type 0} {P : B → Type 0} (m : Result A) {f : A → Result B}
    → Ensures Q m
    → ((a : A) → Q a → Ensures P (f a))
    → Ensures P (m >>= f)
Ensures-then (ok a) q h = h a (q.holds a refl)
Ensures-then (err e) q h = record { holds = λ b e. cc }
