-- ===== src/Names/Valid.antt =====
-- validate_fqn of src/rcllite/names.cpp against the names of Names.Tokens.
use rcllite.Prelude.{
  ℕ, ◌≡◌, refl, ap, ◌↔◌, true, not, ◌&&◌, List, [], ◌∷◌, ◌++◌, arith, Bytes, All, ◌==◌, ==_iff, ok,
}
use rcllite.Names.Search.{slash, starts_with, starts_with_byte, ends_with_byte, find_text, found}
use rcllite.Names.Maps.{validate_fqn}
use rcllite.Names.Tokens.{IsToken, join, scan, Split, split, scan-join}

-- The scan makes the two tests of validate_fqn: no "//", and no slash at the end.
scan_tests :
    (c : ℕ) (s : Bytes)
    → scan (c == slash) s
      ≡ (not (found (find_text (slash ∷ slash ∷ []) (c ∷ s))) && not (ends_with_byte slash (c ∷ s)))
unfolding scan find_text starts_with ends_with_byte
scan_tests c [] = ground arith
scan_tests c (d ∷ s) = ground (arith, scan_tests d s)

valid-scan : (d : ℕ) (s : Bytes) → validate_fqn (slash ∷ d ∷ s) ≡ ok tt → scan true (d ∷ s) ≡ true
unfolding validate_fqn starts_with_byte
valid-scan d s h = ground (arith, scan_tests slash (d ∷ s))

scan-valid : (d : ℕ) (s : Bytes) → scan true (d ∷ s) ≡ true → validate_fqn (slash ∷ d ∷ s) ≡ ok tt
unfolding validate_fqn starts_with_byte
scan-valid d s h = ground (arith, scan_tests slash (d ∷ s))

-- The names that ROS 2 calls fully qualified: the root, or a token behind each slash.
pub data Qualified : Bytes → Type 0 where
  root : (s : Bytes) → s ≡ slash ∷ [] → Qualified s
  path :
      (s : Bytes) (t : Bytes) (ts : List Bytes)
      → All IsToken (t ∷ ts)
      → s ≡ join (t ∷ ts)
      → Qualified s

valid-front : (c : ℕ) (s : Bytes) → validate_fqn (c ∷ s) ≡ ok tt → c ≡ slash
unfolding validate_fqn starts_with_byte
valid-front c s h = ground (arith, ==_iff c slash)

Split-Qualified : (s : Bytes) → Split true s → Qualified (slash ∷ s)
unfolding join
Split-Qualified s p =
    path _ p.token p.tokens (record { filled = p.here refl; plain = p.plain }, p.rest)
      (ap (λ l. slash ∷ l) p.joined)

valid-Qualified : (s : Bytes) → validate_fqn s ≡ ok tt → Qualified s
unfolding validate_fqn
valid-Qualified [] h = absurd (ground arith)
valid-Qualified (c ∷ []) h = root _ (ap (λ b. b ∷ []) (valid-front c [] h))
valid-Qualified (c ∷ d ∷ s) h =
    let e = valid-front c (d ∷ s) h in
    rw e (Split-Qualified (d ∷ s) (split true (d ∷ s) (valid-scan d s (rw e at h))))

join-valid :
    (t : Bytes) (ts : List Bytes) → All IsToken (t ∷ ts) → validate_fqn (join (t ∷ ts)) ≡ ok tt
unfolding join
join-valid [] ts (h, hs) = absurd (h.filled refl)
join-valid (b ∷ t) ts h = scan-valid b (t ++ join ts) (unfold scan in scan-join ((b ∷ t) ∷ ts) h)

Qualified-valid : (s : Bytes) → Qualified s → validate_fqn s ≡ ok tt
Qualified-valid s (root _ e) =
    rw e (unfold validate_fqn starts_with_byte find_text starts_with in refl)
Qualified-valid s (path _ t ts h e) = rw e (join-valid t ts h)

-- validate_fqn lets a name pass exactly when it is the root "/" or has a slash in front of each
-- of one or more tokens, which are not empty and hold no slash.
pub validate_fqn_iff : (s : Bytes) → (validate_fqn s ≡ ok tt) ↔ Qualified s
validate_fqn_iff s = (valid-Qualified s, Qualified-valid s)
