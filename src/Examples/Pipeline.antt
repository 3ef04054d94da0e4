-- ===== src/Examples/Pipeline.antt =====
-- examples/graph/abc_graph.cpp: node A counts, node B adds up, node C keeps what it hears, and main
-- looks at the three when the executor has stopped. An int64_t stands by its bit pattern.
use rcllite.Prelude.{
  ℕ, zero, suc, ◌+◌, ◌-◌, ◌%◌, ◌^◌, ◌<◌, ◌≤◌, ◌≡◌, Bool, true, false, ◌&&◌, ◌||◌, Option, none,
  some, List, [], ◌∷◌, ◌++◌, length, ltb, leb, ◌==◌, if◌then◌else◌,
}
use rcllite.Dds.Qos.{default_qos}

-- The three nodes, and what is on its way between them. `storing` says that A has published its
-- number and not stored it, `overwritten` that a sample was lost to a history that was full.
pub record Pipeline : Type 0 where
  pub n : ℕ
  pub storing : Bool
  pub published : ℕ
  pub b_matched : Bool
  pub to_b : List ℕ
  pub sum : ℕ
  pub inputs : ℕ
  pub first_input : ℕ
  pub last_input : ℕ
  pub published_sums : List ℕ
  pub c_matched : Bool
  pub to_c : List ℕ
  pub received : List ℕ
  pub cancelled : Bool
  pub overwritten : Bool

abbrev pub start : Pipeline
start = record {
  n = 0;
  storing = false;
  published = 0;
  b_matched = false;
  to_b = [];
  sum = 0;
  inputs = 0;
  first_input = 0;
  last_input = 0;
  published_sums = [];
  c_matched = false;
  to_c = [];
  received = [];
  cancelled = false;
  overwritten = false;
}

-- A sample goes into the histories of the endpoints where the reader is matched, and is lost
-- otherwise.
abbrev pub sent_on : Bool → List ℕ → ℕ → List ℕ
sent_on true queue x = queue ++ (x ∷ [])
sent_on false queue x = queue

-- A round of NodeA::run up to its store, and the store.
unfoldable pub publish_number : Pipeline → Pipeline
publish_number s = record s {
  n = s.n + 1;
  storing = true;
  to_b = sent_on s.b_matched s.to_b (s.n + 1);
}

unfoldable pub store_number : Pipeline → Pipeline
store_number s = record s { storing = false; published = s.n }

-- The callback of NodeB.
unfoldable pub add_up : ℕ → List ℕ → Pipeline → Pipeline
add_up x rest s =
    let total = (s.sum + x) % 2 ^ 64 in
    record s {
      to_b = rest;
      sum = total;
      first_input = if s.first_input == 0 then x else s.first_input;
      last_input = x;
      inputs = s.inputs + 1;
      published_sums = s.published_sums ++ (total ∷ []);
      to_c = sent_on s.c_matched s.to_c total;
    }

-- The callback of NodeC.
unfoldable pub keep_sum : ℕ → List ℕ → Pipeline → Pipeline
keep_sum y rest s = record s { to_c = rest; received = s.received ++ (y ∷ []) }

-- The depth of the endpoints, which have the default QoS. They keep their last samples.
abbrev pub depth : ℕ
depth = default_qos.depth

-- A sample is gone that stood between `front` and `rest`.
unfoldable pub overwrite_b : List ℕ → List ℕ → Pipeline → Pipeline
overwrite_b front rest s = record s { to_b = front ++ rest; overwritten = true }

unfoldable pub overwrite_c : List ℕ → List ℕ → Pipeline → Pipeline
overwrite_c front rest s = record s { to_c = front ++ rest; overwritten = true }

-- What happens next. A sample that is not among the last `depth` of its queue, which is the
-- histories of the writer and the reader together, may be overwritten. The callbacks run in the
-- executor, which stops after the cancel, and the thread of A goes on. Its counter is followed as
-- long as it fits an int64_t, for 2 ^ 63 - 1 rounds.
pub data Step (s : Pipeline) : Pipeline → Type 0 where
  publishes : s.storing ≡ false → s.n + 1 < 2 ^ 63 → Step s (publish_number s)
  stores : s.storing ≡ true → Step s (store_number s)
  adds :
      (x : ℕ) (rest : List ℕ) → s.cancelled ≡ false → s.to_b ≡ x ∷ rest → Step s (add_up x rest s)
  keeps :
      (y : ℕ) (rest : List ℕ) → s.cancelled ≡ false → s.to_c ≡ y ∷ rest → Step s (keep_sum y rest s)
  matches_b : Step s (record s { b_matched = true })
  matches_c : Step s (record s { c_matched = true })
  cancels : Step s (record s { cancelled = true })
  overwrites_b :
      (front : List ℕ) (x : ℕ) (rest : List ℕ)
      → s.to_b ≡ front ++ (x ∷ rest)
      → depth ≤ length rest
      → Step s (overwrite_b front rest s)
  overwrites_c :
      (front : List ℕ) (x : ℕ) (rest : List ℕ)
      → s.to_c ≡ front ++ (x ∷ rest)
      → depth ≤ length rest
      → Step s (overwrite_c front rest s)

pub data Reach : Pipeline → Type 0 where
  here : Reach start
  next : {s t : Pipeline} → Reach s → Step s t → Reach t

-- An element, if there is one.
abbrev pub get_elem? : List ℕ → ℕ → Option ℕ
get_elem? [] i = none
get_elem? (x ∷ xs) zero = some x
get_elem? (x ∷ xs) (suc i) = get_elem? xs i

abbrev pub holds_at : List ℕ → ℕ → ℕ → Bool
holds_at xs i x = elim (get_elem? xs i) [ none ↦ false | some y ↦ y == x ]

-- The loop of received_is_suffix, over the rest of `received`.
unfoldable pub same_from : List ℕ → ℕ → List ℕ → Bool
same_from published i [] = true
same_from published i (r ∷ rs) =
    let rest = same_from published (i + 1) rs in holds_at published i r && rest

unfoldable pub received_is_suffix : List ℕ → List ℕ → Bool
unfolding same_from
received_is_suffix published received =
    if ltb (length published) (length received) || (length received == 0)
    then false
    else same_from published (length published - length received) received

-- The loop of main over the inputs of B, `rounds` of them from `x` on.
unfoldable pub sums_right : List ℕ → ℕ → ℕ → ℕ → ℕ → Bool
sums_right sums first zero x expect = true
sums_right sums first (suc rounds) x expect =
    let now = (expect + x) % 2 ^ 64 in
    let rest = sums_right sums first rounds (x + 1) now in holds_at sums (x - first) now && rest

-- The verdict of main. B's numbers are small, so their difference is as on integers.
unfoldable pub verdict : Pipeline → Bool
unfolding received_is_suffix sums_right
verdict s =
    ltb 0 s.inputs
    && (s.last_input + 1 == s.first_input + s.inputs)
    && (leb 1 s.first_input && leb s.last_input s.published)
    && sums_right s.published_sums s.first_input (s.last_input + 1 - s.first_input) s.first_input 0
    && received_is_suffix s.published_sums s.received
