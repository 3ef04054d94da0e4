-- ===== src/Names/Tokens.antt =====
-- Fully qualified names as lists of tokens: an independent description of what validate_fqn of
-- src/rcllite/names.cpp accepts.
use rcllite.Prelude.{
  ◌≡◌, ◌≢◌, refl, ap, Bool, true, false, not, ◌&&◌, List, [], ◌∷◌, ◌++◌, arith, Bytes, All, ◌==◌,
  ==_iff, Bool-cases, inl, inr, if◌then◌else◌,
}
use mathlib.Core.Bool.{false≢true}
use rcllite.Names.Search.{slash}

abbrev pub HasNoSlash : Bytes → Type 0
HasNoSlash = All (λ b. b ≢ slash)

pub record IsToken (t : Bytes) : Type 0 where
  pub filled : t ≢ []
  pub plain : HasNoSlash t

-- "/a/b/c" for the tokens a, b and c.
unfoldable pub join : List Bytes → Bytes
join [] = []
join (t ∷ ts) = slash ∷ (t ++ join ts)

-- One pass over a name behind its first byte: `behind` says that the last byte was a slash.
unfoldable pub scan : Bool → Bytes → Bool
scan behind [] = not behind
scan behind (b ∷ s) = let rest = scan (b == slash) s in if behind && b == slash then false else rest

-- What a scan accepts is one token, empty or not, and further tokens behind it.
pub record Split (behind : Bool) (s : Bytes) : Type 0 where
  pub token : Bytes
  pub tokens : List Bytes
  pub here : behind ≡ true → token ≢ []
  pub plain : HasNoSlash token
  pub rest : All IsToken tokens
  pub joined : s ≡ token ++ join tokens

pub split : (behind : Bool) (s : Bytes) → scan behind s ≡ true → Split behind s
unfolding scan join
split behind [] h = record {
  token = [];
  tokens = [];
  here = λ e. ground arith;
  plain = tt;
  rest = tt;
  joined = refl;
}
split behind (b ∷ s) h = elim (Bool-cases (b == slash)) [
  | inl at_slash ↦
      let r = split true s (ground (arith, at_slash)) in
      record {
        token = [];
        tokens = r.token ∷ r.tokens;
        here = λ e. ground arith;
        plain = tt;
        rest = (record { filled = r.here refl; plain = r.plain }, r.rest);
        joined = ground (arith, r.joined, ==_iff b slash);
      }
  | inr other ↦
      let r = split false s (ground (arith, other)) in
      record {
        token = b ∷ r.token;
        tokens = r.tokens;
        here = λ e e'. cc;
        plain = (λ e. ground (arith, other), r.plain);
        rest = r.rest;
        joined = ap (λ l. b ∷ l) r.joined;
      }
]

pub scan-token :
    (behind : Bool) (t : Bytes) (ts : List Bytes)
    → (behind ≡ true → t ≢ [])
    → HasNoSlash t
    → scan false (join ts) ≡ true
    → scan behind (t ++ join ts) ≡ true
unfolding scan
scan-token true [] ts h p e = absurd (h refl refl)
scan-token false [] ts h p e = e
scan-token behind (b ∷ t) ts h (p, ps) e =
    ground (arith, scan-token false t ts (λ x. absurd (false≢true x)) ps e)

pub scan-join : (ts : List Bytes) → All IsToken ts → scan false (join ts) ≡ true
unfolding join scan
scan-join [] h = refl
scan-join (t ∷ ts) (h, hs) = scan-token true t ts (λ e. h.filled) h.plain (scan-join ts hs)
