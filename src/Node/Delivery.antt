-- ===== src/Node/Delivery.antt =====
-- Messages on their way from Publisher::publish (src/rcllite/publisher.hpp) through raw_from_ser on
-- the other side (src/rcllite/dds/raw_serdata.cpp) and Reader::take (src/rcllite/dds/entities.hpp) to
-- the callback of a subscription (src/rcllite/subscription.hpp).
use rcllite.Prelude.{
  zero, suc, ℕ, ◌+◌, ◌*◌, ◌<◌, ◌^◌, ◌%◌, ◌≡◌, refl, sym, ap, ◌∙◌, subst, arith, true, false, Option,
  none, some, List, [], ◌∷◌, ◌++◌, Bytes, Result, ok, err, length, All, replicate, append_assoc,
  ==_iff, Bool-cases, inl, inr, ◌==◌,
}
use native.Mathlib.Nat.{mod-lt}
use rcllite.Message.{Message, Codes}
use rcllite.Cdr.Writer.{payload, new_writer}
use rcllite.Cdr.RoundTrip.{new_reader_starts}
use rcllite.Dds.Serdata.{Fragment, raw_from_ser, raw_serdata_from_blob}
use rcllite.Dds.Blob.{blob_payload}
use rcllite.Dds.Fragments.{Covers, raw_from_ser-Covers}
use rcllite.Dds.Take.{Sample, handed, take, read_message, dispatch}
use rcllite.Dds.Drain.{TakesOldest, take-drains}
use rcllite.Dds.Calls.{Trace, Io, Cyclone, ◌>>=◌, return, sent}
use rcllite.Node.Endpoints.{Publisher, publish}
use rcllite.Node.Announced.{publish-sent}

-- The samples that arrive for payloads, in the order of the payloads: each is put together from
-- pieces, and samples without data may come between them.
pub data Arrives : List Bytes → List Sample → Type 0 where
  nothing : Arrives [] []
  notice :
      {ds : List Bytes} {samples : List Sample} (s : Sample)
      → s.valid_data ≡ false
      → Arrives ds samples
      → Arrives ds (s ∷ samples)
  arrives :
      {ds : List Bytes} {samples : List Sample} (d : Bytes) (s : Sample) (fs : List Fragment)
      → s.valid_data ≡ true
      → s.payload ≡ raw_from_ser fs (length d)
      → Covers d 0 fs
      → Arrives ds samples
      → Arrives (d ∷ ds) (s ∷ samples)

-- The payloads that a sequence of calls hands over, the oldest first, in front of those before.
abbrev pub after : List Bytes → List Bytes → List Bytes
after [] before = before
after (d ∷ ds) before = after ds (d ∷ before)

-- A payload with a message and padding.
pub record Carries {A : Type 0} (message : Message A) (msg : A) (d : Bytes) : Type 0 where
  pub pad : ℕ
  pub is : d ≡ payload (message.serialize msg new_writer) ++ replicate pad 0
  pub whole : length d % 4 ≡ 0

-- Payloads for messages, one for one.
data CarryAll {A : Type 0} (message : Message A) : List A → List Bytes → Type 0 where
  no_more : CarryAll message [] []
  one_more :
      {msgs : List A} {ds : List Bytes} (msg : A) (d : Bytes)
      → Carries message msg d
      → CarryAll message msgs ds
      → CarryAll message (msg ∷ msgs) (d ∷ ds)

module _ {A : Type 0} (message : Message A) where
  read_message_padded :
      (msg : A) (d : Bytes)
      → Codes message msg
      → Carries message msg d
      → read_message message d ≡ ok (some msg)
  unfolding read_message payload
  read_message_padded msg d codes c =
      let body = codes new_writer in
      rw (c.is, body.appends, append_assoc, new_reader_starts, body.reads (replicate c.pad 0)) refl

  dispatch-Arrives :
      (msgs : List A) (ds : List Bytes) (samples : List Sample)
      → All (Codes message) msgs
      → CarryAll message msgs ds
      → Arrives ds samples
      → dispatch message (handed samples) ≡ msgs
  unfolding dispatch handed
  dispatch-Arrives _ _ _ codes no_more nothing = refl
  dispatch-Arrives msgs ds _ codes all (notice {samples = rest} s v a) =
      rw v (dispatch-Arrives msgs ds rest codes all a)
  dispatch-Arrives _ _ _ codes (one_more {msgs} {ds} msg d c all)
        (arrives {samples = rest} _ s fs v e cover a) =
      rw (v, e, raw_from_ser-Covers d fs c.whole cover, read_message_padded msg d codes.0 c)
        (ap (λ l. msg ∷ l) (dispatch-Arrives msgs ds rest codes.1 all a))

pow_pos : (k : ℕ) → 0 < 2 ^ k
pow_pos zero = omega arith
pow_pos (suc k) = omega (arith, pow_pos k)

blob_fits :
    (bits : ℕ) (blob d : Bytes) → raw_serdata_from_blob bits blob ≡ some d → length blob < 2 ^ bits
unfolding raw_serdata_from_blob
blob_fits bits blob d h = elim (Bool-cases (length blob % 2 ^ bits == length blob)) [
  | inl e ↦
      subst (λ n. n < 2 ^ bits) ((==_iff (length blob % 2 ^ bits) (length blob)).0 e)
        (mod-lt (length blob) (pow_pos bits))
  | inr e ↦ absurd (ground (arith, h, e))
]

pub blob-Carries :
    {A : Type 0} (message : Message A) (bits : ℕ) (msg : A) (d : Bytes)
    → raw_serdata_from_blob bits (payload (message.serialize msg new_writer)) ≡ some d
    → Carries message msg d
blob-Carries message bits msg d h =
    let (pad, made, small, whole) =
      blob_payload bits (payload (message.serialize msg new_writer)) (blob_fits bits _ d h) in
    let same : payload (message.serialize msg new_writer) ++ replicate pad 0 ≡ d =
      some_injective (sym made ∙ h) in
    record { pad = pad; is = sym same; whole = subst (λ q. length q % 4 ≡ 0) same whole }
  where
    some_injective : {a b : Bytes} → some a ≡ some b → a ≡ b
    some_injective e = cc

module _ {A : Type 0} (cyclone : Cyclone) (bits : ℕ) (message : Message A) (p : Publisher) where
  -- Calls of publish, one after the other.
  unfoldable pub publish_all : List A → Io (Unit {0})
  publish_all [] = return tt
  publish_all (msg ∷ msgs) = do u ← publish cyclone bits message msg p; publish_all msgs

  -- What one call hands over.
  publish-Carries :
      (msg : A) (trace : Trace)
      → (publish cyclone bits message msg p trace).1 ≡ ok tt
      → (d : Bytes) × Carries message msg d
        × (sent (publish cyclone bits message msg p trace).0 ≡ d ∷ sent trace)
  publish-Carries msg trace h =
      go (raw_serdata_from_blob bits (payload (message.serialize msg new_writer))) refl
    where
      go :
          (o : Option Bytes)
          → raw_serdata_from_blob bits (payload (message.serialize msg new_writer)) ≡ o
          → (d : Bytes) × Carries message msg d
            × (sent (publish cyclone bits message msg p trace).0 ≡ d ∷ sent trace)
      go none e = absurd (ground (arith, publish-sent cyclone bits message msg p trace h, e))
      go (some d) e = (
        d,
        blob-Carries message bits msg d e,
        ground (arith, publish-sent cyclone bits message msg p trace h, e),
      )

  publish_all-CarryAll :
      (msgs : List A) (trace : Trace)
      → (publish_all msgs trace).1 ≡ ok tt
      → (ds : List Bytes) × CarryAll message msgs ds
        × (sent (publish_all msgs trace).0 ≡ after ds (sent trace))
  unfolding publish_all
  publish_all-CarryAll [] trace h = ([], no_more, refl)
  publish_all-CarryAll (msg ∷ msgs) trace h =
      go (publish cyclone bits message msg p trace) (publish_all-CarryAll msgs) refl
    where
      go :
          (out : Trace × Result (Unit {0}))
          → ((trace1 : Trace)
              → (publish_all msgs trace1).1 ≡ ok tt
              → (ds : List Bytes) × CarryAll message msgs ds
                × (sent (publish_all msgs trace1).0 ≡ after ds (sent trace1)))
          → publish cyclone bits message msg p trace ≡ out
          → (ds : List Bytes) × CarryAll message (msg ∷ msgs) ds
            × (sent (publish_all (msg ∷ msgs) trace).0 ≡ after ds (sent trace))
      go (trace1, err e) again k = absurd (ground (arith, h, k))
      go (trace1, ok u) again k =
          let (d, carries, handed_over) = publish-Carries msg trace (ap (λ o. o.1) k) in
          let (ds, all, rest) = again trace1 (rw k at h) in
          (d ∷ ds, one_more msg d carries all, rw k (rest ∙ ap (after ds) (rw k at handed_over)))

length-after : (ds before : List Bytes) → length (after ds before) ≡ length ds + length before
length-after [] before = omega arith
length-after (d ∷ ds) before = omega (arith, length-after ds (d ∷ before))

after-after :
    (ds es b c : List Bytes) → length ds ≡ length es → after ds b ≡ after es c → (ds ≡ es) × (b ≡ c)
after-after [] [] b c h e = (refl, e)
after-after [] (y ∷ es) b c h e = absurd (omega arith)
after-after (d ∷ ds) [] b c h e = absurd (omega arith)
after-after (d ∷ ds) (y ∷ es) b c h e =
    let (tails, heads) = after-after ds es (d ∷ b) (y ∷ c) (omega arith) e in (cc, cc)

after_injective : (ds es b : List Bytes) → after ds b ≡ after es b → ds ≡ es
after_injective ds es b e =
    (after-after ds es b b (omega (arith, length-after ds b, length-after es b, ap length e)) e).0

-- Where a publisher's calls of publish return, each message is read back from what was written
-- for it, the samples that wait in a reader are those of these calls in order, each put together
-- from pieces that cover it, with samples without data between them, and takes hand out the
-- oldest samples and have enough rounds: the callback of the subscription sees exactly the
-- messages, in order.
pub publish_all-dispatch :
    {A S : Type 0} (cyclone : Cyclone) (bits : ℕ) (message : Message A) (p : Publisher)
    (msgs : List A) (before : Trace) (ds : List Bytes) (dds_takecdr : S → S × Option (List Sample))
    (queued : S → List Sample) (s : S) (fuel : ℕ)
    → All (Codes message) msgs
    → (publish_all cyclone bits message p msgs before).1 ≡ ok tt
    → sent (publish_all cyclone bits message p msgs before).0 ≡ after ds (sent before)
    → Arrives ds (queued s)
    → TakesOldest dds_takecdr queued
    → length (queued s) < 16 * fuel
    → dispatch message (take dds_takecdr fuel s [] 0).payloads ≡ msgs
publish_all-dispatch cyclone bits message p msgs before ds dds_takecdr queued s fuel codes returns
      said arrived oldest enough =
    let (es, all, rest) = publish_all-CarryAll cyclone bits message p msgs before returns in
    let same : es ≡ ds = after_injective es ds (sent before) (sym rest ∙ said) in
    ap (dispatch message) (take-drains dds_takecdr queued oldest s fuel enough).1
    ∙ dispatch-Arrives message msgs ds (queued s) codes
        (subst (λ q. CarryAll message msgs q) same all) arrived
