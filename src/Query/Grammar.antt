-- ===== src/Query/Grammar.antt =====
-- The grammar of filter expressions that the comments of
-- crates/contextos-obsidian/src/base_query.rs describe, with its text and its meaning: `||` binds
-- loosest, then `&&`, and `!` tightest. It stands beside the code.
pub mod Leaf
pub mod Steps
pub mod Reads
use context_os_mcp.Prelude.{
  Bool, Option, Result, Text, [], all, codes, false, list_eq, map_err, nat_eq, not, ok, option_eq,
  trim, true, ℕ, ◌&&◌, ◌++◌, ◌+◌, ◌-◌, ◌/◌, ◌==◌, ◌>>=◌, ◌>>◌, ◌||◌, ◌∷◌, ◌≡◌,
}
use context_os_mcp.Query.Value.{RowContext, QueryFault, refused}
use context_os_mcp.Query.Leaf.{evaluate_leaf}
use context_os_mcp.Query.Expression.{skip, scan_leaf}

mutual
  -- Clauses with `||` between them
  pub data Formula : Type 0 where
    either : Clause → Clauses → Formula

  pub data Clauses : Type 0 where
    no_clauses : Clauses
    or_clause : Clause → Clauses → Clauses

  -- Factors with `&&` between them
  pub data Clause : Type 0 where
    both : Factor → Factors → Clause

  pub data Factors : Type 0 where
    no_factors : Factors
    and_factor : Factor → Factors → Factors

  pub data Factor : Type 0 where
    -- behind blanks
    negated : Text → Factor → Factor
    -- with blanks in front of it and behind it
    group : Text → Formula → Text → Factor
    leaf : Text → Factor

-- The text of a formula, in front of what follows it
unfoldable mutual
  pub formula_text : Formula → Text → Text
  formula_text (either c cs) rest = clause_text c (clauses_text cs rest)

  pub clauses_text : Clauses → Text → Text
  clauses_text no_clauses rest = rest
  clauses_text (or_clause c cs) rest = b'|' ∷ b'|' ∷ clause_text c (clauses_text cs rest)

  pub clause_text : Clause → Text → Text
  clause_text (both x xs) rest = factor_text x (factors_text xs rest)

  pub factors_text : Factors → Text → Text
  factors_text no_factors rest = rest
  factors_text (and_factor x xs) rest = b'&' ∷ b'&' ∷ factor_text x (factors_text xs rest)

  pub factor_text : Factor → Text → Text
  factor_text (negated before x) rest = before ++ b'!' ∷ factor_text x rest
  factor_text (group before φ after) rest = before ++ b'(' ∷ formula_text φ (b')' ∷ (after ++ rest))
  factor_text (leaf s) rest = s ++ rest

-- A leaf begins with no sign of another form.
abbrev pub opens : Text → Bool
opens [] = false
opens (c ∷ cs) = not (c == b'(' || c == b'!')

abbrev pub no_sign : Text → Bool
no_sign [] = false
no_sign (c ∷ cs) = not (c == b'=')

-- A leaf is scanned as a whole in front of a text.
abbrev pub Scans : Text → Text → Type 0
Scans s rest = scan_leaf (s ++ rest) ≡ (s, rest)

-- A text that is one leaf, with spaces around it or not: wherever a leaf may end, it ends.
abbrev pub IsLeaf : Text → Type 0
IsLeaf s =
    (opens (skip s) ≡ true)
    × (no_sign s ≡ true)
    × Scans (skip s) []
    × Scans (skip s) (codes ")")
    × Scans (skip s) (codes "&&")
    × Scans (skip s) (codes "||")

-- A space, a tab, a line feed, a form feed or a carriage return
abbrev pub is_blank : ℕ → Bool
is_blank c = c == b' ' || c == 9 || c == 10 || c == 12 || c == 13

-- A formula whose leaves are leaves, and whose other signs have blanks beside them at most
unfoldable mutual
  pub IsFormula : Formula → Type 0
  IsFormula (either c cs) = IsClause c × AreClauses cs

  pub AreClauses : Clauses → Type 0
  AreClauses no_clauses = Unit {0}
  AreClauses (or_clause c cs) = IsClause c × AreClauses cs

  pub IsClause : Clause → Type 0
  IsClause (both x xs) = IsFactor x × AreFactors xs

  pub AreFactors : Factors → Type 0
  AreFactors no_factors = Unit {0}
  AreFactors (and_factor x xs) = IsFactor x × AreFactors xs

  pub IsFactor : Factor → Type 0
  IsFactor (negated before x) = (all is_blank before ≡ true) × IsFactor x
  IsFactor (group before φ after) =
      (all is_blank before ≡ true) × IsFormula φ × (all is_blank after ≡ true)
  IsFactor (leaf s) = IsLeaf s

-- What a formula says of a row: every leaf is evaluated, in order, up to an error.
module _ (parse_f64 : Text → Option ℕ) (row : RowContext) (place : Text) where
  unfoldable mutual
    pub meaning : Formula → Result QueryFault Bool
    meaning (either c cs) = clause_meaning c >>= λ b. clauses_meaning cs b

    pub clauses_meaning : Clauses → Bool → Result QueryFault Bool
    clauses_meaning no_clauses b = ok b
    clauses_meaning (or_clause c cs) b = clause_meaning c >>= λ d. clauses_meaning cs (b || d)

    pub clause_meaning : Clause → Result QueryFault Bool
    clause_meaning (both x xs) = factor_meaning x >>= λ b. factors_meaning xs b

    pub factors_meaning : Factors → Bool → Result QueryFault Bool
    factors_meaning no_factors b = ok b
    factors_meaning (and_factor x xs) b = factor_meaning x >>= λ d. factors_meaning xs (b && d)

    pub factor_meaning : Factor → Result QueryFault Bool
    factor_meaning (negated before x) = factor_meaning x >>= λ b. ok (not b)
    factor_meaning (group before φ after) = meaning φ
    factor_meaning (leaf s) = map_err refused (evaluate_leaf parse_f64 row place (trim s))
