-- ===== src/LogRecord/Line.antt =====
-- Each record of the log is one line.
use context_os_mcp.Prelude.{
  All, Bool, List, Text, [], add_to_first, append_assoc, arith, codes, decimal, digits, false,
  if◌then◌else◌, is_whitespace, join_text, keep, map, nat_eq, padded, refl, split_on,
  split_whitespace, suc, true, zero, zeros, ℕ, ◌%◌, ◌++◌, ◌+◌, ◌/◌, ◌==◌, ◌∙◌, ◌∷◌, ◌≡◌,
}
use context_os_mcp.Vault.Confine.{VaultPath}
use context_os_mcp.Operation.{forward_slash_display}
use context_os_mcp.LogRecord.{Calendar, escape_pipes, single_line, file_list, record_line}

abbrev pub is_newline : ℕ → Bool
is_newline c = c == b'\n'

abbrev pub newlines : Text → ℕ
newlines [] = 0
newlines (c ∷ cs) = (if is_newline c then 1 else 0) + newlines cs

newlines-append : (a b : Text) → newlines (a ++ b) ≡ newlines a + newlines b
newlines-append [] b = omega arith
newlines-append (c ∷ a) b = omega (arith, newlines-append a b)

newlines-escape_pipes : (s : Text) → newlines (escape_pipes s) ≡ newlines s
newlines-escape_pipes [] = refl
newlines-escape_pipes (c ∷ s) = ground (arith, newlines-escape_pipes s)

-- No piece holds a newline.
abbrev Flat : List Text → Type 0
Flat pieces = All (λ p. newlines p ≡ 0) pieces

newlines-join_text :
    (separator : Text) (pieces : List Text)
    → newlines separator ≡ 0
    → Flat pieces
    → newlines (join_text separator pieces) ≡ 0
newlines-join_text separator [] s f = refl
newlines-join_text separator (p ∷ []) s f = f.0
newlines-join_text separator (p ∷ q ∷ pieces) s f = omega (
  arith,
  newlines-append p (separator ++ join_text separator (q ∷ pieces)),
  newlines-append separator (join_text separator (q ∷ pieces)),
  newlines-join_text separator (q ∷ pieces) s f.1,
)

add_to_first-Flat :
    (b : Bool) (c : ℕ) (pieces : List Text)
    → (b ≡ false → newlines (c ∷ []) ≡ 0)
    → Flat pieces
    → Flat (add_to_first b c pieces)
add_to_first-Flat true c pieces h f = (refl, f)
add_to_first-Flat false c [] h f = (h refl, tt)
add_to_first-Flat false c (p ∷ pieces) h f = (omega (arith, h refl), f.1)

split_on-Flat : (s : Text) → Flat (split_on is_whitespace s)
split_on-Flat [] = (refl, tt)
split_on-Flat (c ∷ s) =
    add_to_first-Flat (is_whitespace c) c _ (λ h. ground arith) (split_on-Flat s)

keep-Flat : (p : Text → Bool) (pieces : List Text) → Flat pieces → Flat (keep p pieces)
keep-Flat p [] f = tt
keep-Flat p (x ∷ pieces) f = go (p x) (keep-Flat p pieces f.1)
  where
    go : (b : Bool) → Flat (keep p pieces) → Flat (if b then x ∷ keep p pieces else keep p pieces)
    go true rest = (f.0, rest)
    go false rest = rest

newlines-single_line : (s : Text) → newlines (single_line s) ≡ 0
unfolding single_line split_whitespace
newlines-single_line s =
    newlines-escape_pipes _
    ∙ newlines-join_text (codes " ") _ refl (keep-Flat _ _ (split_on-Flat s))

newlines-digits : (fuel n : ℕ) (out : Text) → newlines (digits fuel n out) ≡ newlines out
newlines-digits zero n out = refl
newlines-digits (suc fuel) n out =
    ground (arith, newlines-digits fuel (n / 10) ((b'0' + n % 10) ∷ out))

newlines-zeros : (n : ℕ) (s : Text) → newlines (zeros n s) ≡ newlines s
newlines-zeros zero s = refl
newlines-zeros (suc n) s = omega (arith, newlines-zeros n s)

newlines-padded : (width n : ℕ) → newlines (padded width n) ≡ 0
unfolding padded decimal
newlines-padded width n = newlines-zeros _ _ ∙ newlines-digits (n + 1) n []

newlines-file_list : (files : List VaultPath) → newlines (file_list files) ≡ 0
unfolding file_list
newlines-file_list files = newlines-join_text (codes ", ") _ refl (flat files)
  where
    flat :
        (files : List VaultPath)
        → Flat (map (λ (p : VaultPath). single_line (forward_slash_display p.relative)) files)
    flat [] = tt
    flat (f ∷ files) = (newlines-single_line _, flat files)

ruleset flat_pieces = (newlines-append, newlines-single_line, newlines-padded, newlines-file_list)

-- A record is one line: whatever the origin, the operation, the summary and the paths hold, it has
-- one newline, at its end.
pub record_line-one_line :
    {T : Type 0} (c : Calendar T) (at : T) (origin operation summary : Text)
    (files : List VaultPath)
    → (body : Text) × (record_line c at origin operation summary files ≡ body ++ codes "\n")
      × (newlines body ≡ 0)
unfolding record_line
record_line-one_line c at origin operation summary files = (
  padded 2 (c.hour at)
      ++ (codes ":"
          ++ (padded 2 (c.minute at)
              ++ (codes ":"
                  ++ (padded 2 (c.second at)
                      ++ (codes " | "
                          ++ (single_line origin
                              ++ (codes " | "
                                  ++ (single_line operation
                                      ++ (codes " | "
                                          ++ (single_line summary
                                              ++ (codes " | files: " ++ file_list files))))))))))),
  simp append_assoc,
  simp flat_pieces,
)
