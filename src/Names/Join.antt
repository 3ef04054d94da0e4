-- ===== src/Names/Join.antt =====
-- What make_fq_node_name and expand_topic_name of src/rcllite/names.cpp give.
use rcllite.Prelude.{
  ◌≡◌, ◌≢◌, refl, ap, sym, subst, ◌∙◌, List, [], ◌∷◌, ◌++◌, arith, Bytes, false, same_text,
  same_text_iff, ok, inl, inr, Bool-cases, if◌then◌else◌, append_assoc, append-nil, drop, All,
  All-append,
}
use mathlib.Core.Bool.{false≢true}
use rcllite.Names.Search.{slash, starts_with_byte, find_byte, found, is_empty}
use rcllite.Names.Maps.{make_fq_node_name, expand_topic_name}
use rcllite.Names.Tokens.{IsToken, HasNoSlash, join}
use rcllite.Names.Valid.{Qualified, root, path}

-- find('/') == npos
pub no_slash : (s : Bytes) → found (find_byte slash s) ≡ false → HasNoSlash s
unfolding find_byte
no_slash [] h = tt
no_slash (b ∷ s) h = (λ e. ground arith, no_slash s (ground arith))

pub token : (s : Bytes) → is_empty s ≡ false → found (find_byte slash s) ≡ false → IsToken s
token s e h = record { filled = λ p. ground arith; plain = no_slash s h }

join-append : (ts us : List Bytes) → join (ts ++ us) ≡ join ts ++ join us
unfolding join
join-append [] us = refl
join-append (t ∷ ts) us =
    ap (λ l. slash ∷ l)
      (ap (λ l. t ++ l) (join-append ts us) ∙ sym (append_assoc t (join ts) (join us)))

join_one : (t : Bytes) → join (t ∷ []) ≡ slash ∷ t
unfolding join
join_one t = ap (λ l. slash ∷ l) (append-nil t)

-- One more token behind a qualified name other than the root.
pub snoc :
    (t : Bytes) (ts : List Bytes) (name : Bytes)
    → All IsToken (t ∷ ts)
    → IsToken name
    → Qualified (join (t ∷ ts) ++ (slash ∷ name))
snoc t ts name h k =
    path _ t (ts ++ (name ∷ [])) (All-append IsToken (t ∷ ts) (name ∷ []) h (k, tt))
      (ap (λ l. join (t ∷ ts) ++ l) (sym (join_one name)) ∙ sym (join-append (t ∷ ts) (name ∷ [])))

single : (name : Bytes) → IsToken name → Qualified (slash ∷ name)
single name k = path _ name [] (k, tt) (sym (join_one name))

under :
    (ns name : Bytes)
    → Qualified ns
    → IsToken name
    → Qualified (if same_text ns (slash ∷ []) then slash ∷ name else ns ++ (slash ∷ name))
under ns name q k = elim (Bool-cases (same_text ns (slash ∷ []))) [
  | inl at_root ↦ rw at_root (single name k)
  | inr other ↦
      rw other (behind q (λ e. false≢true (sym other ∙ (same_text_iff ns (slash ∷ [])).1 e)))
]
  where
    behind : Qualified ns → ns ≢ slash ∷ [] → Qualified (ns ++ (slash ∷ name))
    behind (root _ e) n = absurd (n e)
    behind (path _ t ts h e) n = rw e (snoc t ts name h k)

made_name :
    (ns name fq : Bytes)
    → make_fq_node_name ns name ≡ ok fq
    → (is_empty name ≡ false)
      × (found (find_byte slash name) ≡ false)
      × ((if same_text ns (slash ∷ []) then slash ∷ name else ns ++ (slash ∷ name)) ≡ fq)
unfolding make_fq_node_name
made_name ns name fq h = ground arith

expanded :
    (topic ns fqn : Bytes)
    → is_empty ns ≡ false
    → starts_with_byte slash topic ≡ false
    → expand_topic_name topic ns ≡ ok fqn
    → (is_empty topic ≡ false)
      × (found (find_byte slash topic) ≡ false)
      × ((if same_text ns (slash ∷ []) then slash ∷ topic else ns ++ (slash ∷ topic)) ≡ fqn)
unfolding expand_topic_name
expanded topic ns fqn e r h = ground arith

filled : {s : Bytes} → Qualified s → is_empty s ≡ false
unfolding join
filled (root _ e) = rw e
filled (path _ t ts h e) = rw e

-- In a namespace that is a qualified name, a node's name is a qualified name.
make_fq_node_name-Qualified :
    (ns name fq : Bytes) → Qualified ns → make_fq_node_name ns name ≡ ok fq → Qualified fq
unfolding make_fq_node_name
make_fq_node_name-Qualified ns name fq q h =
    let (e, n, made) = made_name ns name fq h in
    subst Qualified made (under ns name q (token name e n))

-- In a namespace that is a qualified name, a relative topic that is accepted becomes a qualified
-- name.
expand_topic_name-Qualified :
    (topic ns fqn : Bytes)
    → Qualified ns
    → starts_with_byte slash topic ≡ false
    → expand_topic_name topic ns ≡ ok fqn
    → Qualified fqn
unfolding expand_topic_name
expand_topic_name-Qualified topic ns fqn q r h =
    let (e, n, made) = expanded topic ns fqn (filled q) r h in
    subst Qualified made (under ns topic q (token topic e n))

no_inner_slash : (bs m : Bytes) → HasNoSlash (bs ++ (slash ∷ m)) → ⊥
no_inner_slash [] m h = h.0 refl
no_inner_slash (b ∷ bs) m h = no_inner_slash bs m h.1

-- The last slash is where a name without slashes begins.
last_slash :
    (front bs n m : Bytes)
    → HasNoSlash n
    → HasNoSlash m
    → front ++ (slash ∷ n) ≡ bs ++ (slash ∷ m)
    → (front ≡ bs) × (n ≡ m)
last_slash [] [] n m hn hm e = (refl, ap (drop 1) e)
last_slash [] (b ∷ bs) n m hn hm e =
    absurd (no_inner_slash bs m (subst HasNoSlash (ap (drop 1) e) hn))
last_slash (a ∷ front) [] n m hn hm e =
    absurd (no_inner_slash front n (subst HasNoSlash (sym (ap (drop 1) e)) hm))
last_slash (a ∷ front) (b ∷ bs) n m hn hm e =
    let r = last_slash front bs n m hn hm (ap (drop 1) e) in (cc (r.0, e), r.1)

-- What stands in front of the slash before the node's name.
abbrev before_name : Bytes → Bytes
before_name ns = if same_text ns (slash ∷ []) then [] else ns

parts :
    (ns name fq : Bytes)
    → make_fq_node_name ns name ≡ ok fq
    → HasNoSlash name × (is_empty ns ≡ false) × (before_name ns ++ (slash ∷ name) ≡ fq)
parts ns name fq h =
    (no_slash name (made_name ns name fq h).1, not_empty, whole (made_name ns name fq h).2)
  where
    not_empty : is_empty ns ≡ false
    not_empty = unfold make_fq_node_name in ground arith

    whole :
        (if same_text ns (slash ∷ []) then slash ∷ name else ns ++ (slash ∷ name)) ≡ fq
        → before_name ns ++ (slash ∷ name) ≡ fq
    whole e = ground arith

before_name_injective :
    (ns ns' : Bytes)
    → is_empty ns ≡ false
    → is_empty ns' ≡ false
    → before_name ns ≡ before_name ns'
    → ns ≡ ns'
before_name_injective ns ns' h k e =
    ground (arith, same_text_iff ns (slash ∷ []), same_text_iff ns' (slash ∷ []))

-- The namespace and the name of a node can be told from its qualified name.
make_fq_node_name_injective :
    (ns name ns' name' fq : Bytes)
    → make_fq_node_name ns name ≡ ok fq
    → make_fq_node_name ns' name' ≡ ok fq
    → (ns ≡ ns') × (name ≡ name')
make_fq_node_name_injective ns name ns' name' fq h k =
    let (p, filled_ns, e) = parts ns name fq h in
    let (p', filled_ns', e') = parts ns' name' fq k in
    let r = last_slash (before_name ns) (before_name ns') name name' p p' (e ∙ sym e') in
    (before_name_injective ns ns' filled_ns filled_ns' r.0, r.1)
