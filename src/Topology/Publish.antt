-- ===== src/Topology/Publish.antt =====
-- start_publishing of src/rcllite/graph_executor.cpp, the threads that it starts, and the dispatch of
-- a raw subscription: the rounds of the threads and the dispatches come in any order.
use rcllite.Prelude.{
  ℕ, zero, suc, ◌+◌, ◌%◌, ◌^◌, ◌≡◌, Bool, true, false, ◌&&◌, List, [], ◌∷◌, Bytes, length, ltb, leb,
  if◌then◌else◌, ok,
}
use rcllite.Dds.Calls.{Trace, Io, Cyclone, ◌>>=◌, return}
use rcllite.Dds.Entities.{write}
use rcllite.Topology.State.{RawPublisher, RawSubscription, NodeEntry}

-- rate_hz > 0.0, by the bit pattern of the double: neither zero, nor negative, nor a NaN.
abbrev pub is_positive : ℕ → Bool
is_positive rate = ltb 0 rate && leb rate 0x7ff0000000000000

-- received.fetch_add(1) for each of the valid samples that Reader::take hands over.
unfoldable pub dispatch_raw : List Bytes → RawSubscription → RawSubscription
dispatch_raw payloads sub = record sub { received = (sub.received + length payloads) % 2 ^ 64 }

-- `f` on the element at an index.
abbrev pub update_at {ℓ} : {A : Type ℓ} → (A → A) → ℕ → List A → List A
update_at f i [] = []
update_at f zero (x ∷ xs) = f x ∷ xs
update_at f (suc i) (x ∷ xs) = x ∷ update_at f i xs

module _ (cyclone : Cyclone) (bits : ℕ) where
  -- `if (pub->writer->write(...)) pub->published.fetch_add(1);`
  unfoldable pub publish_once : RawPublisher → Io RawPublisher
  publish_once p = do
    sent ← write cyclone bits p.writer p.payload
    return (if sent then record p { published = (p.published + 1) % 2 ^ 64 } else p)

  -- What start_publishing does for one publisher; a periodic one gets a thread.
  unfoldable pub start_one : RawPublisher → Io RawPublisher
  unfolding publish_once
  start_one p = if is_positive p.rate_hz then return p else publish_once p

  unfoldable pub start_all : List RawPublisher → Io (List RawPublisher)
  unfolding start_one
  start_all [] = return []
  start_all (p ∷ ps) = do p' ← start_one p; ps' ← start_all ps; return (p' ∷ ps')

  unfoldable pub start_publishing : List NodeEntry → Io (List NodeEntry)
  unfolding start_all
  start_publishing [] = return []
  start_publishing (n ∷ ns) = do
    ps ← start_all n.publishers
    ns' ← start_publishing ns
    return (record n { publishers = ps } ∷ ns')

  -- The body of a thread's loop, for the publisher at an index of a node; no thread is there for the
  -- others.
  unfoldable pub round_of : ℕ → List RawPublisher → Io (List RawPublisher)
  unfolding publish_once
  round_of j [] = return []
  round_of zero (p ∷ ps) = do
    p' ← (if is_positive p.rate_hz then publish_once p else return p)
    return (p' ∷ ps)
  round_of (suc j) (p ∷ ps) = do ps' ← round_of j ps; return (p ∷ ps')

  unfoldable pub thread_round : ℕ → ℕ → List NodeEntry → Io (List NodeEntry)
  unfolding round_of
  thread_round i j [] = return []
  thread_round zero j (n ∷ ns) = do
    ps ← round_of j n.publishers
    return (record n { publishers = ps } ∷ ns)
  thread_round (suc i) j (n ∷ ns) = do ns' ← thread_round i j ns; return (n ∷ ns')

-- The executor while its threads run; `running` is the flag that they test.
pub record Running : Type 0 where
  pub trace : Trace
  pub nodes : List NodeEntry
  pub running : Bool

-- One thing that happens next.
pub data Step (cyclone : Cyclone) (bits : ℕ) (s : Running) : Running → Type 0 where
  round :
      (i j : ℕ) {trace' : Trace} {nodes' : List NodeEntry}
      → s.running ≡ true
      → thread_round cyclone bits i j s.nodes s.trace ≡ (trace', ok nodes')
      → Step cyclone bits s (record { trace = trace'; nodes = nodes'; running = true })
  dispatch :
      (i j : ℕ) (payloads : List Bytes)
      → Step cyclone bits s (record s {
        nodes =
            update_at
              (λ n. record n {
                subscriptions = update_at (dispatch_raw payloads) j n.subscriptions;
              })
              i
              s.nodes;
      })
  -- ~Impl up to where the threads are joined
  stop : Step cyclone bits s (record s { running = false })

pub data Reach (cyclone : Cyclone) (bits : ℕ) (s : Running) : Running → Type 0 where
  start : Reach cyclone bits s s
  later : {t u : Running} → Reach cyclone bits s t → Step cyclone bits t u → Reach cyclone bits s u
