-- ===== src/Query/Grammar/Reads.antt =====
-- The evaluating parser reads the grammar (crates/contextos-obsidian/src/base_query.rs).
use context_os_mcp.Prelude.{
  none, strip_prefix, ◌≢◌, not, ◌&&◌, [], ◌||◌, codes, ◌∷◌, Bool, Option, Result, Text, ap, err,
  inl, inr, list_eq, map_err, nat_eq, ok, option_eq, refl, subst, suc, zero, ℕ, ◌++◌, ◌>>=◌, ◌∙◌,
  ◌≡◌,
}
use context_os_mcp.Query.Value.{RowContext, QueryFault, refused, out_of_fuel}
use context_os_mcp.Query.Leaf.{evaluate_leaf}
use context_os_mcp.Query.Ends.Parser.{evaluate_expression-Ends}
use context_os_mcp.Query.Expression.{
  at_end, fuel_for, evaluate_expression, parse_and, no_equals, closed, negation, parse_not, token,
  skip, parse_leaf, parse_or, or_loop, and_loop, parse_primary,
}
use context_os_mcp.Query.Grammar.{
  IsLeaf, Formula, either, Clauses, no_clauses, or_clause, Clause, both, Factors, no_factors,
  and_factor, Factor, negated, group, leaf, formula_text, clauses_text, clause_text, factors_text,
  factor_text, IsFormula, AreClauses, IsClause, AreFactors, IsFactor, meaning, clauses_meaning,
  clause_meaning, factors_meaning, factor_meaning,
}
use context_os_mcp.Query.Grammar.Leaf.{
  Next, at_text_end, at_close, at_or, at_and, next_text, leaf-token, leaf-scan, trim-skip,
}
use context_os_mcp.Query.Grammar.Steps.{
  Stop, formula_end, formula_close, OrStop, stop, clause_or, after_formula, after_clause, Parsed,
  Reads, then-Reads, move-Reads, answer-Reads, same-Reads, or_token, and_token, not_token,
  group_token, group_not, close_token, skip-blanks, without_token, with_token, follow_clause,
  follow_factor, no_equals-factor,
}

-- What follows begins with no blank, and with no sign that its loop goes on with.
skip_twice : (n : Next) → skip (skip (next_text n)) ≡ skip (next_text n)
unfolding skip
skip_twice at_text_end = refl
skip_twice (at_close rest) = refl
skip_twice (at_or rest) = refl
skip_twice (at_and rest) = refl

no_or : (s : Stop) → token (codes "||") (next_text (after_formula s)) ≡ none
unfolding skip
no_or formula_end = refl
no_or (formula_close rest) = refl

no_and : (o : OrStop) → token (codes "&&") (next_text (after_clause o)) ≡ none
unfolding skip
no_and (stop formula_end) = refl
no_and (stop (formula_close rest)) = refl
no_and (clause_or rest) = refl

module _ (parse_f64 : Text → Option ℕ) (row : RowContext) (place text : Text) where
  closes :
      (b : Bool) (t rest : Text)
      → skip t ≡ skip (b')' ∷ rest)
      → closed parse_f64 row place text b (token (codes ")") t) ≡ ok (b, rest)
  closes b t rest left = ap (closed parse_f64 row place text b) (close_token t rest left)

  or_end :
      (f : ℕ) (s : Stop) (b : Bool) (t : Text)
      → skip t ≡ skip (next_text (after_formula s))
      → Reads (or_loop parse_f64 row place text f b t) (ok b) (next_text (after_formula s))
  unfolding parse_or ◌>>=◌
  or_end zero s b t left = inl refl
  or_end (suc f) s b t left = inr (
    skip t,
    ap skip left ∙ skip_twice (after_formula s),
    without_token (token (codes "||") t) (ap (strip_prefix (codes "||")) left ∙ no_or s) _ _,
  )

  and_end :
      (f : ℕ) (o : OrStop) (b : Bool) (t : Text)
      → skip t ≡ skip (next_text (after_clause o))
      → Reads (and_loop parse_f64 row place text f b t) (ok b) (next_text (after_clause o))
  unfolding parse_or ◌>>=◌
  and_end zero o b t left = inl refl
  and_end (suc f) o b t left = inr (
    skip t,
    ap skip left ∙ skip_twice (after_clause o),
    without_token (token (codes "&&") t) (ap (strip_prefix (codes "&&")) left ∙ no_and o) _ _,
  )

  leaf_value :
      (s rest : Text)
      → parse_leaf parse_f64 row place text (skip s, rest)
        ≡ (factor_meaning parse_f64 row place (leaf s) >>= λ b. ok (b, rest))
  unfolding meaning
  leaf_value s rest =
      ap (λ t. map_err refused (evaluate_leaf parse_f64 row place t) >>= λ b. ok (b, rest))
        (trim-skip s)

  leaf_primary :
      (f : ℕ) (s : Text) (n : Next)
      → IsLeaf s
      → Reads
          (parse_primary parse_f64 row place text f (s ++ next_text n))
          (factor_meaning parse_f64 row place (leaf s))
          (next_text n)
  unfolding parse_or
  leaf_primary zero s n is = inl refl
  leaf_primary (suc f) s n is = inr (
    next_text n,
    refl,
    without_token (token (codes "(") (s ++ next_text n)) (leaf-token b'(' s (next_text n) is.0 refl)
          _ _
        ∙ ap (parse_leaf parse_f64 row place text) (leaf-scan s is n)
        ∙ leaf_value s (next_text n),
  )

  leaf_not :
      (f : ℕ) (s : Text) (n : Next)
      → IsLeaf s
      → Reads
          (parse_not parse_f64 row place text f (s ++ next_text n))
          (factor_meaning parse_f64 row place (leaf s))
          (next_text n)
  unfolding parse_or
  leaf_not zero s n is = inl refl
  leaf_not (suc f) s n is =
      same-Reads (factor_meaning parse_f64 row place (leaf s)) (next_text n)
        (without_token (negation (s ++ next_text n))
          (ap no_equals (leaf-token b'!' s (next_text n) is.0 refl)) _ _)
        (leaf_primary f s n is)

  mutual
    unfolding parse_or formula_text IsFormula meaning

    formula-Reads :
        (f : ℕ) (φ : Formula) (s : Stop)
        → IsFormula φ
        → Reads
            (parse_or parse_f64 row place text f (formula_text φ (next_text (after_formula s))))
            (meaning parse_f64 row place φ)
            (next_text (after_formula s))
    formula-Reads zero φ s is = inl refl
    formula-Reads (suc f) (either c cs) s is =
        let (o, follows) = follow_clause cs s in
        then-Reads _ (clause_meaning parse_f64 row place c)
          (clauses_text cs (next_text (after_formula s))) (next_text (after_formula s)) _ _
          (subst
            (λ t.
              Reads (parse_and parse_f64 row place text f (clause_text c t))
                (clause_meaning parse_f64 row place c) t)
            follows (clause-Reads f c o is.0))
          (λ b t left. clauses-Reads f cs b s t left is.1)

    clauses-Reads :
        (f : ℕ) (cs : Clauses) (b : Bool) (s : Stop) (t : Text)
        → skip t ≡ skip (clauses_text cs (next_text (after_formula s)))
        → AreClauses cs
        → Reads
            (or_loop parse_f64 row place text f b t)
            (clauses_meaning parse_f64 row place cs b)
            (next_text (after_formula s))
    clauses-Reads f no_clauses b s t left is = or_end f s b t left
    clauses-Reads zero (or_clause c cs) b s t left is = inl refl
    clauses-Reads (suc f) (or_clause c cs) b s t left is =
        let (o, follows) = follow_clause cs s in
        same-Reads _ _
          (with_token _
            (or_token t (clause_text c (clauses_text cs (next_text (after_formula s)))) left) _ _)
          (then-Reads _ (clause_meaning parse_f64 row place c)
            (clauses_text cs (next_text (after_formula s))) (next_text (after_formula s)) _ _
            (subst
              (λ t.
                Reads (parse_and parse_f64 row place text f (clause_text c t))
                  (clause_meaning parse_f64 row place c) t)
              follows (clause-Reads f c o is.0))
            (λ d u rest. clauses-Reads f cs (b || d) s u rest is.1))

    clause-Reads :
        (f : ℕ) (c : Clause) (o : OrStop)
        → IsClause c
        → Reads
            (parse_and parse_f64 row place text f (clause_text c (next_text (after_clause o))))
            (clause_meaning parse_f64 row place c)
            (next_text (after_clause o))
    clause-Reads zero c o is = inl refl
    clause-Reads (suc f) (both x xs) o is =
        let (n, follows) = follow_factor xs o in
        then-Reads _ (factor_meaning parse_f64 row place x)
          (factors_text xs (next_text (after_clause o))) (next_text (after_clause o)) _ _
          (subst
            (λ t.
              Reads (parse_not parse_f64 row place text f (factor_text x t))
                (factor_meaning parse_f64 row place x) t)
            follows (factor-Reads f x n is.0))
          (λ b t left. factors-Reads f xs b o t left is.1)

    factors-Reads :
        (f : ℕ) (xs : Factors) (b : Bool) (o : OrStop) (t : Text)
        → skip t ≡ skip (factors_text xs (next_text (after_clause o)))
        → AreFactors xs
        → Reads
            (and_loop parse_f64 row place text f b t)
            (factors_meaning parse_f64 row place xs b)
            (next_text (after_clause o))
    factors-Reads f no_factors b o t left is = and_end f o b t left
    factors-Reads zero (and_factor x xs) b o t left is = inl refl
    factors-Reads (suc f) (and_factor x xs) b o t left is =
        let (n, follows) = follow_factor xs o in
        same-Reads _ _
          (with_token _
            (and_token t (factor_text x (factors_text xs (next_text (after_clause o)))) left) _ _)
          (then-Reads _ (factor_meaning parse_f64 row place x)
            (factors_text xs (next_text (after_clause o))) (next_text (after_clause o)) _ _
            (subst
              (λ t.
                Reads (parse_not parse_f64 row place text f (factor_text x t))
                  (factor_meaning parse_f64 row place x) t)
              follows (factor-Reads f x n is.0))
            (λ d u rest. factors-Reads f xs (b && d) o u rest is.1))

    factor-Reads :
        (f : ℕ) (x : Factor) (n : Next)
        → IsFactor x
        → Reads
            (parse_not parse_f64 row place text f (factor_text x (next_text n)))
            (factor_meaning parse_f64 row place x)
            (next_text n)
    factor-Reads f (leaf s) n is = leaf_not f s n is
    factor-Reads zero (negated before x) n is = inl refl
    factor-Reads (suc f) (negated before x) n is =
        same-Reads _ _
          (with_token _
            (not_token before (factor_text x (next_text n)) is.0
              ∙ no_equals-factor x (next_text n) is.1)
            _ _)
          (then-Reads _ (factor_meaning parse_f64 row place x) (next_text n) (next_text n) _ _
            (factor-Reads f x n is.1) (λ b t left. answer-Reads (not b) t (next_text n) left))
    factor-Reads zero (group before φ after) n is = inl refl
    factor-Reads (suc zero) (group before φ after) n is = inl (group_not before _ is.0 _ _)
    factor-Reads (suc (suc f)) (group before φ after) n is =
        same-Reads _ _
          (group_not before _ is.0 _ _
            ∙ with_token _
                (group_token before (formula_text φ (b')' ∷ (after ++ next_text n))) is.0) _ _)
          (move-Reads _ (meaning parse_f64 row place φ) (b')' ∷ (after ++ next_text n))
            (after ++ next_text n) (next_text n) _
            (formula-Reads f φ (formula_close (after ++ next_text n)) is.1)
            (skip-blanks after (next_text n) is.2)
            (λ b t left. closes b t (after ++ next_text n) left))

  abbrev finished : Parsed → Result QueryFault Bool
  finished m = m >>= λ (b, rest). at_end parse_f64 row place text b (skip rest)

  ended :
      (m : Parsed) (result : Result QueryFault Bool)
      → Reads m result []
      → finished m ≢ err out_of_fuel
      → finished m ≡ result
  unfolding ◌>>=◌ skip
  ended m result (inl out) ends = absurd (ends (ap finished out))
  ended m (ok b) (inr (t, left, same)) ends =
      ap finished same ∙ ap (at_end parse_f64 row place text b) left
  ended m (err e) (inr (t, left, same)) ends = ap finished same

-- Whatever reads a float: if every leaf of a formula is a text that begins, behind its spaces,
-- with a character other than `(` and `!`, that does not begin with `=`, and that scan_leaf takes
-- as a whole at the end of a text and in front of `)`, `&&` and `||`, then for every row and place,
-- and with any ASCII blanks before each `!`, and before and behind each group,
-- evaluate_expression of the formula's text gives its meaning: `!` binds tightest, then `&&`, then
-- `||`, and the first leaf in error ends the evaluation.
pub evaluate_expression-meaning :
    (parse_f64 : Text → Option ℕ) (row : RowContext) (place : Text) (φ : Formula)
    → IsFormula φ
    → evaluate_expression parse_f64 row place (formula_text φ []) ≡ meaning parse_f64 row place φ
unfolding evaluate_expression
evaluate_expression-meaning parse_f64 row place φ is =
    let text = formula_text φ [] in
    ended parse_f64 row place text _ (meaning parse_f64 row place φ)
      (formula-Reads parse_f64 row place text (fuel_for text) φ formula_end is)
      (evaluate_expression-Ends parse_f64 row place text)
