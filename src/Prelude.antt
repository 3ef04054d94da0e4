-- ===== src/Prelude.antt =====
-- Names, tests, lists, texts and maps that the modules share. The names are the libraries', passed
-- on, and those of the children.
mod Tests
mod Lists
pub mod Text
pub mod Outcome
pub mod OrderedMap
pub use Tests.*
pub use Lists.*
unfoldable pub use Text.{same_text, text_before}
pub use Text.{Bytes, text, same_text_iff, same_text_refl}
pub use Outcome.{
  Error, invalid_arguments, internal_error, wait_timeout, value_error, Result, ok, err, ◌>>=◌,
  unless, Ensures, Ensures-ok, Ensures-bind, Ensures-then, Ensures-if,
}
pub use Prim.Native.Nat.{ℕ, zero, suc, ◌+◌, ◌-◌, ◌*◌, ◌/◌, ◌%◌, ◌^◌, ◌≤◌, ◌<◌}
pub use Prim.Native.String.{String}
pub use mathlib.Core.Path.{◌≡◌, refl, sym, ap, ◌∙◌, subst}
pub use mathlib.Core.Logic.{◌≢◌, ◌↔◌, ◌⊎◌, inl, inr}
pub use mathlib.Core.Bool.{Bool, true, false, not, ◌&&◌, ◌||◌}
pub use mathlib.Core.Option.{Option, none, some}
pub use mathlib.Core.List.{List, [], ◌∷◌, ◌++◌, map, append-nil, append_assoc}
pub use native.Mathlib.Omega.{arith}
