-- ===== src/Index/Block/Lines.antt =====
-- The lines of pieces that are written with a newline behind each.
use context_os_mcp.Prelude.{
  Bool, List, Text, [], add_to_first, ap, arith, contains, false, is_whitespace, line_pieces, lines,
  nat_beq_iff, nat_eq, refl, reverse, split_on, sym, trim, trim_start, true, without_return, ℕ,
  ◌++◌, ◌==◌, ◌∙◌, ◌∷◌, ◌≡◌,
}
use mathlib.Core.List.{reverse-append, reverse-reverse}

abbrev newline : ℕ → Bool
newline c = c == b'\n'

abbrev pub OneLine : Text → Type 0
OneLine s = contains b'\n' s ≡ false

split_on-cons :
    (s : Text) → (piece : Text) × (pieces : List Text) × (split_on newline s ≡ piece ∷ pieces)
split_on-cons [] = ([], [], refl)
split_on-cons (c ∷ s) = first (newline c) (split_on newline s)
  where
    first :
        (b : Bool) (pieces : List Text)
        → (p : Text) × (ps : List Text) × (add_to_first b c pieces ≡ p ∷ ps)
    first true pieces = ([], pieces, refl)
    first false [] = (c ∷ [], [], refl)
    first false (p ∷ pieces) = (c ∷ p, pieces, refl)

split_on-line :
    (p s : Text) → OneLine p → split_on newline (p ++ (b'\n' ∷ s)) ≡ p ∷ split_on newline s
split_on-line [] s h = refl
split_on-line (c ∷ p) s h =
    let dark : newline c ≡ false = ground (arith, nat_beq_iff c b'\n', nat_beq_iff b'\n' c) in
    rw (dark, split_on-line p s (ground arith)) refl

pub lines-line : (p s : Text) → OneLine p → lines (p ++ (b'\n' ∷ s)) ≡ without_return p ∷ lines s
lines-line p s h =
    let (q, qs, e) = split_on-cons s in ap line_pieces (split_on-line p s h) ∙ rw e refl

pub append-OneLine : (a b : Text) → OneLine a → OneLine b → OneLine (a ++ b)
append-OneLine [] b ha hb = hb
append-OneLine (c ∷ a) b ha hb = ground (arith, append-OneLine a b)

-- A text that starts and ends with visible characters.
trim_start-visible : (c : ℕ) (s : Text) → is_whitespace c ≡ false → trim_start (c ∷ s) ≡ c ∷ s
trim_start-visible c s h = rw h refl

pub trim-visible :
    (c d : ℕ) (s : Text)
    → is_whitespace c ≡ false
    → is_whitespace d ≡ false
    → trim (c ∷ (s ++ d ∷ [])) ≡ c ∷ (s ++ d ∷ [])
trim-visible c d s hc hd =
    let turned = reverse-append (c ∷ s) (d ∷ []) in
    let visible = ap trim_start turned ∙ trim_start-visible d (reverse (c ∷ s)) hd ∙ sym turned in
    ap (λ t. reverse (trim_start (reverse t))) (trim_start-visible c (s ++ d ∷ []) hc)
    ∙ ap reverse visible
    ∙ reverse-reverse (c ∷ (s ++ d ∷ []))

pub without_return-visible :
    (s : Text) (d : ℕ) → (d == b'\r') ≡ false → without_return (s ++ d ∷ []) ≡ s ++ d ∷ []
without_return-visible [] d h = rw h refl
without_return-visible (c ∷ []) d h = rw h refl
without_return-visible (c ∷ e ∷ s) d h = ap (λ t. c ∷ t) (without_return-visible (e ∷ s) d h)
