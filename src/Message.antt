-- ===== src/Message.antt =====
-- The message types that tools/msg_codegen.py generates for src/rcllite/msg_traits.hpp: a type with
-- static members serialize and deserialize. The generated code is not part of the repository, so
-- it is an argument of everything that uses it.
use rcllite.Prelude.{Option, some}
use rcllite.Cdr.Writer.{CdrWriter}
use rcllite.Cdr.Reader.{Read}
use rcllite.Cdr.RoundTrip.{ReadsBack}

-- `deserialize` gives `none` where the generated member returns false.
pub record Message (A : Type 0) : Type 0 where
  pub serialize : A → CdrWriter → CdrWriter
  pub deserialize : Read (Option A)

-- What a generated type promises for one value: it is read back from what was written for it.
abbrev pub Codes : {A : Type 0} → Message A → A → Type 0
Codes m a = (w : CdrWriter) → ReadsBack m.deserialize (some a) w (m.serialize a w)
