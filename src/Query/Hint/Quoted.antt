-- ===== src/Query/Hint/Quoted.antt =====
-- Texts with a quoted text at their end (crates/contextos-obsidian/src/base_query.rs).
use context_os_mcp.Prelude.{
  Bool-cases, Option, Text, [], ap, append_assoc, arith, codes, false, get_or, inl, inr,
  is_whitespace, length, list_eq, nat_eq, none, option_eq, refl, reverse, some, strip_prefix,
  strip_prefix_sound, subst, sym, trim, trim_start, true, ℕ, ◌++◌, ◌==◌, ◌∙◌, ◌∷◌, ◌≡◌, ◌≤◌,
}
use mathlib.Core.List.{reverse-append, reverse-reverse, reverse-cons}
use context_os_mcp.Vault.Confine.{split_once}
use context_os_mcp.Files.Edit.Exact.{Found, split_once-Found}
use context_os_mcp.Index.Block.{strip_suffix, turned_back}
use context_os_mcp.Query.Leaf.{
  is_quote, parse_quoted, needle_in, and_quoted, closed_argument, argument_of,
}

-- A text that ends with a character.
abbrev EndsWith : Text → ℕ → Type 0
EndsWith s c = (front : Text) × (s ≡ front ++ c ∷ [])

-- A text with no white space at its end.
abbrev pub IsTrimmed : Text → Type 0
IsTrimmed s = trim_start (reverse s) ≡ reverse s

trim_start_idem : (s : Text) → trim_start (trim_start s) ≡ trim_start s
trim_start_idem [] = refl
trim_start_idem (c ∷ cs) = elim (Bool-cases (is_whitespace c)) [
  | inl white ↦ rw white (trim_start_idem cs)
  | inr black ↦ rw black (rw black refl)
]

pub trim-IsTrimmed : (s : Text) → IsTrimmed (trim s)
trim-IsTrimmed s =
    let turned = reverse-reverse (trim_start (reverse (trim_start s))) in
    ap trim_start turned ∙ trim_start_idem (reverse (trim_start s)) ∙ sym turned

trim_start-last :
    (c : ℕ) (front : Text) → is_whitespace c ≡ false → EndsWith (trim_start (front ++ c ∷ [])) c
trim_start-last c [] black = rw black ([], refl)
trim_start-last c (d ∷ front) black = elim (Bool-cases (is_whitespace d)) [
  | inl white ↦ rw white (trim_start-last c front black)
  | inr other ↦ rw other (d ∷ front, refl)
]

length-trim_start : (s : Text) → length (trim_start s) ≤ length s
length-trim_start [] = omega arith
length-trim_start (c ∷ cs) = elim (Bool-cases (is_whitespace c)) [
  | inl white ↦ rw white (omega (arith, length-trim_start cs))
  | inr black ↦ rw black (omega arith)
]

trimmed_head : (c : ℕ) (cs : Text) → trim_start (c ∷ cs) ≡ c ∷ cs → is_whitespace c ≡ false
trimmed_head c cs h = elim (Bool-cases (is_whitespace c)) [
  | inl white ↦
      let shorter = ap length (rw white at h) in
      absurd (omega (arith, length-trim_start cs, shorter))
  | inr black ↦ black
]

quoted_last :
    (front : Text) (c : ℕ) {p : Text} → parse_quoted (front ++ c ∷ []) ≡ some p → is_quote c ≡ true
unfolding parse_quoted
quoted_last [] c h = elim (Bool-cases (is_quote c)) [
  | inl quote ↦ quote
  | inr other ↦ absurd (cc (rw other at h))
]
quoted_last (q ∷ front) c h = elim (Bool-cases (is_quote q)) [
  | inr other ↦ absurd (cc (rw other at h))
  | inl quote ↦
      let turned = rw (reverse-append front (c ∷ [])) at (rw quote at h) in
      elim (Bool-cases (c == q)) [
        | inl same ↦ subst (λ d. is_quote d ≡ true) (sym ((nat_eq.equal_iff c q).0 same)) quote
        | inr other ↦ absurd (cc (rw other at turned))
      ]
]

black_head : (c : ℕ) (cs : Text) → is_whitespace c ≡ false → trim_start (c ∷ cs) ≡ c ∷ cs
black_head c cs black = rw black refl

-- A trimmed text with a quoted text behind it, trimmed, ends with the quote.
pub ends_quoted :
    (t a behind r : Text) {p : Text}
    → IsTrimmed t
    → t ≡ a ++ behind
    → reverse behind ≡ r
    → parse_quoted (trim behind) ≡ some p
    → (c : ℕ) × EndsWith t c × (is_quote c ≡ true)
unfolding parse_quoted
ends_quoted t a behind [] {p} trimmed whole turned h = absurd (
    cc (
      subst (λ b. parse_quoted (trim b) ≡ some p) (sym (reverse-reverse behind) ∙ ap reverse turned)
        h))
ends_quoted t a behind (c ∷ rs) {p} trimmed whole turned h =
    let behind_is = sym (reverse-reverse behind) ∙ ap reverse turned ∙ reverse-cons c rs in
    let t_turned = ap reverse whole ∙ reverse-append a behind ∙ ap (λ r. r ++ reverse a) turned in
    let black = trimmed_head c (rs ++ reverse a) (subst (λ r. trim_start r ≡ r) t_turned trimmed) in
    let (front, same) = trim_start-last c (reverse rs) black in
    let inner = ap trim_start behind_is ∙ same in
    let turned_inner = ap reverse inner ∙ reverse-append front (c ∷ []) in
    let trim_is =
      ap (λ r. reverse (trim_start r)) turned_inner
      ∙ ap reverse (black_head c (reverse front) black)
      ∙ reverse-cons c (reverse front)
      ∙ ap (λ f. f ++ c ∷ []) (reverse-reverse front) in
    (
      c,
      (
        a ++ reverse rs,
        whole ∙ ap (λ b. a ++ b) behind_is ∙ sym (append_assoc a (reverse rs) (c ∷ [])),
      ),
      quoted_last front c (subst (λ s. parse_quoted s ≡ some p) trim_is h),
    )

no_parenthesis : (c : ℕ) (rs : Text) → is_quote c ≡ true → strip_prefix (codes ")") (c ∷ rs) ≡ none
no_parenthesis c rs quote = elim (Bool-cases (b')' == c)) [
  | inl same ↦
      let bad = subst (λ d. is_quote d ≡ true) (sym ((nat_eq.equal_iff b')' c).0 same)) quote in
      absurd (cc bad)
  | inr other ↦ rw (other, strip_prefix) refl
]

-- In a text that ends with a quote, no part that reaches its end is closed by a parenthesis.
not_closed :
    (t a rest r : Text) {c : ℕ}
    → EndsWith t c
    → is_quote c ≡ true
    → t ≡ a ++ rest
    → reverse rest ≡ r
    → strip_suffix (codes ")") rest ≡ none
not_closed t a rest [] ends quote whole turned = rw turned refl
not_closed t a rest (d ∷ rs) {c} (front, last) quote whole turned =
    let left = ap reverse last ∙ reverse-append front (c ∷ []) in
    let right = ap reverse whole ∙ reverse-append a rest ∙ ap (λ r. r ++ reverse a) turned in
    let same = ap (λ s. get_or s 0 0) (sym right ∙ left) in
    rw turned
      (ap turned_back (no_parenthesis d rs (subst (λ e. is_quote e ≡ true) (sym same) quote)))

module _ (t : Text) (c : ℕ) (ends : EndsWith t c) (quote : is_quote c ≡ true) where
  pub no_argument :
      (head : Text) (o : Option Text) → strip_prefix head t ≡ o → argument_of head t ≡ none
  no_argument head none h = ap closed_argument h
  no_argument head (some rest) h =
      ap closed_argument h
      ∙ ap and_quoted
          (not_closed t head rest (reverse rest) ends quote (strip_prefix_sound head t h) refl)

  pub no_contains :
      (o : Option (Text × Text)) → split_once (codes ".contains(") t ≡ o → needle_in o ≡ none
  no_contains none h = refl
  no_contains (some (front, rest)) h =
      let found =
        subst (Found (codes ".contains(") t) h (split_once-Found (codes ".contains(") t) in
      rw
        (not_closed t (front ++ codes ".contains(") rest (reverse rest) ends quote
          (found.0 ∙ sym (append_assoc front (codes ".contains(") rest)) refl)
        refl
