-- ===== src/Query/Grammar/Leaf.antt =====
-- Where a leaf of a filter expression ends (crates/contextos-obsidian/src/base_query.rs).
use context_os_mcp.Query.Grammar.{opens, Scans, IsLeaf}
use context_os_mcp.Prelude.{
  subst, inr, ◌==◌, inl, arith, strip_prefix, Bool-cases, sym, false, is_whitespace, true, ◌∙◌,
  reverse, trim_start, ◌++◌, ap₂, trim, ap, Option, Text, [], list_eq, nat_eq, none, option_eq,
  refl, some, ℕ, ◌∷◌, ◌≡◌,
}
use context_os_mcp.Query.Expression.{
  token, scan_leaf, skip, is_ascii_whitespace, LeafState, add_front, leaf_step, scan_from,
}

-- What may follow a factor
pub data Next : Type 0 where
  at_text_end : Next
  at_close at_or at_and : Text → Next

abbrev pub next_text : Next → Text
next_text at_text_end = []
next_text (at_close rest) = b')' ∷ rest
next_text (at_or rest) = b'|' ∷ b'|' ∷ rest
next_text (at_and rest) = b'&' ∷ b'&' ∷ rest

-- A round of the scan sees one character behind its own.
same_step :
    (state : LeafState) (c d : ℕ) (xs ys : Text)
    → leaf_step state c (d ∷ xs) ≡ leaf_step state c (d ∷ ys)
unfolding leaf_step
same_step (depth, none) c d xs ys = refl
same_step (depth, some quote) c d xs ys = refl

same_close : (state : LeafState) (rest : Text) → leaf_step state b')' [] ≡ leaf_step state b')' rest
unfolding leaf_step
same_close (depth, none) rest = refl
same_close (depth, some quote) rest = refl

abbrev scanned : ℕ → Text → Option LeafState → Text × Text
scanned c cs none = ([], c ∷ cs)
scanned c cs (some next) = add_front c (scan_from next cs)

scan-step :
    (state : LeafState) (c : ℕ) (cs : Text)
    → scan_from state (c ∷ cs) ≡ scanned c cs (leaf_step state c cs)
unfolding scan_from
scan-step state c cs = by_step (leaf_step state c cs)
  where
    by_step :
        (o : Option LeafState)
        → (elim o as (λ _. Text × Text) [
          | some next ↦ add_front c (scan_from next cs)
          | none ↦ ([], c ∷ cs)
        ])
          ≡ scanned c cs o
    by_step none = refl
    by_step (some next) = refl

same_front :
    (state : LeafState) (d : ℕ) (s : Text) (c : ℕ) (xs ys : Text)
    → leaf_step state d (s ++ c ∷ xs) ≡ leaf_step state d (s ++ c ∷ ys)
same_front state d [] c xs ys = same_step state d c xs ys
same_front state d (e ∷ s) c xs ys = same_step state d e (s ++ c ∷ xs) (s ++ c ∷ ys)

abbrev behind_first : Text → Text
behind_first [] = []
behind_first (c ∷ cs) = cs

unfront : (d : ℕ) (s rest : Text) (p : Text × Text) → add_front d p ≡ (d ∷ s, rest) → p ≡ (s, rest)
unfront d s rest (a, b) e = ap₂ (λ x y. (behind_first x, y)) (ap (λ q. q.0) e) (ap (λ q. q.1) e)

module _ (c : ℕ) (xs ys : Text)
    (same : (state : LeafState) → leaf_step state c xs ≡ leaf_step state c ys) where
  stops : (o : Option LeafState) → scanned c xs o ≡ ([], c ∷ xs) → scanned c ys o ≡ ([], c ∷ ys)
  stops none e = refl
  stops (some next) e = absurd (cc (ap (λ q. q.0) e))

  goes_on :
      (d : ℕ) (s : Text) (o : Option LeafState)
      → ((next : LeafState)
          → scan_from next (s ++ c ∷ xs) ≡ (s, c ∷ xs)
          → scan_from next (s ++ c ∷ ys) ≡ (s, c ∷ ys))
      → scanned d (s ++ c ∷ xs) o ≡ (d ∷ s, c ∷ xs)
      → scanned d (s ++ c ∷ ys) o ≡ (d ∷ s, c ∷ ys)
  goes_on d s none later e = absurd (cc (ap (λ q. q.0) e))
  goes_on d s (some next) later e = ap (add_front d) (later next (unfront d s (c ∷ xs) _ e))

  -- Where a scan ends depends on the first two characters behind the leaf at most.
  scan-extends :
      (s : Text) (state : LeafState)
      → scan_from state (s ++ c ∷ xs) ≡ (s, c ∷ xs)
      → scan_from state (s ++ c ∷ ys) ≡ (s, c ∷ ys)
  scan-extends [] state e =
      scan-step state c ys
      ∙ ap (scanned c ys) (sym (same state))
      ∙ stops (leaf_step state c xs) (sym (scan-step state c xs) ∙ e)
  scan-extends (d ∷ s) state e =
      scan-step state d (s ++ c ∷ ys)
      ∙ ap (scanned d (s ++ c ∷ ys)) (sym (same_front state d s c xs ys))
      ∙ goes_on d s (leaf_step state d (s ++ c ∷ xs)) (λ next. scan-extends s next)
          (sym (scan-step state d (s ++ c ∷ xs)) ∙ e)

-- A leaf is scanned as a whole, whatever follows.
pub IsLeaf-Scans : (s : Text) → IsLeaf s → (n : Next) → Scans (skip s) (next_text n)
unfolding scan_leaf
IsLeaf-Scans s (_, _, end_, close, both, either) at_text_end = end_
IsLeaf-Scans s (_, _, end_, close, both, either) (at_close rest) =
    scan-extends b')' [] rest (λ state. same_close state rest) (skip s) (0, none) close
IsLeaf-Scans s (_, _, end_, close, both, either) (at_or rest) =
    scan-extends b'|' (b'|' ∷ []) (b'|' ∷ rest) (λ state. same_step state b'|' b'|' [] rest)
      (skip s) (0, none) either
IsLeaf-Scans s (_, _, end_, close, both, either) (at_and rest) =
    scan-extends b'&' (b'&' ∷ []) (b'&' ∷ rest) (λ state. same_step state b'&' b'&' [] rest)
      (skip s) (0, none) both

-- The signs of other forms do not begin a leaf.
strip_other :
    (sign : ℕ) (t rest : Text)
    → opens t ≡ true
    → opens (sign ∷ []) ≡ false
    → strip_prefix (sign ∷ []) (t ++ rest) ≡ none
strip_other sign [] rest first other = absurd (cc)
strip_other sign (c ∷ cs) rest first other = elim (Bool-cases (sign == c)) [
  | inl same ↦
      absurd (cc (subst (λ d. opens (d ∷ []) ≡ false) ((nat_eq.equal_iff sign c).0 same) other))
  | inr differs ↦ rw (differs, strip_prefix) refl
]

skip-append : (s rest : Text) → opens (skip s) ≡ true → skip (s ++ rest) ≡ skip s ++ rest
unfolding skip
skip-append [] rest first = absurd (cc)
skip-append (c ∷ cs) rest first = elim (Bool-cases (is_ascii_whitespace c)) [
  | inl white ↦ rw white (skip-append cs rest (rw white at first))
  | inr black ↦ rw black refl
]

pub leaf-token :
    (sign : ℕ) (s rest : Text)
    → opens (skip s) ≡ true
    → opens (sign ∷ []) ≡ false
    → token (sign ∷ []) (s ++ rest) ≡ none
leaf-token sign s rest first other =
    ap (strip_prefix (sign ∷ [])) (skip-append s rest first)
    ∙ strip_other sign (skip s) rest first other

pub leaf-scan :
    (s : Text) → IsLeaf s → (n : Next) → scan_leaf (skip (s ++ next_text n)) ≡ (skip s, next_text n)
leaf-scan s is n = ap scan_leaf (skip-append s (next_text n) is.0) ∙ IsLeaf-Scans s is n

-- Trimming a text takes what skipping leaves out.
white_is_white : (c : ℕ) → is_ascii_whitespace c ≡ true → is_whitespace c ≡ true
white_is_white c white = ground arith

trim_start-skip : (s : Text) → trim_start (skip s) ≡ trim_start s
unfolding skip
trim_start-skip [] = refl
trim_start-skip (c ∷ cs) = elim (Bool-cases (is_ascii_whitespace c)) [
  | inl white ↦ rw (white, white_is_white c white) (trim_start-skip cs)
  | inr black ↦ rw black refl
]

pub trim-skip : (s : Text) → trim (skip s) ≡ trim s
trim-skip s = ap (λ t. reverse (trim_start (reverse t))) (trim_start-skip s)
