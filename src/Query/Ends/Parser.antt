-- ===== src/Query/Ends/Parser.antt =====
-- The evaluating parser ends within its fuel (crates/contextos-obsidian/src/base_query.rs).
use context_os_mcp.Prelude.{
  Bool, Option, Result, Text, [], arith, codes, err, length, list_eq, map_err, nat_eq, none, ok,
  option_eq, refl, some, suc, trim, zero, ℕ, ◌&&◌, ◌*◌, ◌+◌, ◌>>=◌, ◌||◌, ◌∷◌, ◌≡◌, ◌≢◌, ◌≤◌,
}
use context_os_mcp.Query.Value.{BaseQueryError, RowContext, QueryFault, refused, out_of_fuel}
use context_os_mcp.Query.Leaf.{evaluate_leaf}
use context_os_mcp.Query.Expression.{
  skip, token, negation, scan_leaf, fuel_for, closed, parse_leaf, at_end, parse_or, or_loop,
  parse_and, and_loop, parse_not, parse_primary, evaluate_expression,
}
use context_os_mcp.Query.Ends.{
  length-skip, length-token, length-negation, length-scan_leaf, token_either,
}

-- The result of a parser: not out of fuel, and the text that is left is not longer than a bound.
abbrev Ends : ℕ → Result QueryFault (Bool × Text) → Type 0
Ends n (ok (b, t)) = length t ≤ n
Ends n (err (refused e)) = Unit {0}
Ends n (err out_of_fuel) = ⊥

then-Ends :
    {m : ℕ} (n : ℕ) (p : Result QueryFault (Bool × Text))
    (k : Bool × Text → Result QueryFault (Bool × Text))
    → Ends m p
    → ((b : Bool) (t : Text) → length t ≤ m → Ends n (k (b, t)))
    → Ends n (p >>= k)
unfolding ◌>>=◌
then-Ends n (ok (b, t)) k first next = next b t first
then-Ends n (err (refused e)) k first next = tt
then-Ends n (err out_of_fuel) k first next = absurd first

less-Ends : {m n : ℕ} (p : Result QueryFault (Bool × Text)) → m ≤ n → Ends m p → Ends n p
less-Ends (ok (b, t)) h e = omega arith
less-Ends (err (refused x)) h e = tt
less-Ends (err out_of_fuel) h e = e

module _ (parse_f64 : Text → Option ℕ) (row : RowContext) (place text : Text) where
  -- The fuel that each part of the parser needs.
  record HasFuel (f : ℕ) : Type 0 where
    at_or :
        (s : Text) → 5 * length s + 5 ≤ f → Ends (length s) (parse_or parse_f64 row place text f s)
    at_or_loop :
        (b : Bool) (s : Text)
        → 5 * length s + 1 ≤ f
        → Ends (length s) (or_loop parse_f64 row place text f b s)
    at_and :
        (s : Text) → 5 * length s + 4 ≤ f → Ends (length s) (parse_and parse_f64 row place text f s)
    at_and_loop :
        (b : Bool) (s : Text)
        → 5 * length s + 1 ≤ f
        → Ends (length s) (and_loop parse_f64 row place text f b s)
    at_not :
        (s : Text) → 5 * length s + 3 ≤ f → Ends (length s) (parse_not parse_f64 row place text f s)
    at_primary :
        (s : Text)
        → 5 * length s + 2 ≤ f
        → Ends (length s) (parse_primary parse_f64 row place text f s)

  closed-Ends :
      (b : Bool) (rest : Text) (o : Option Text)
      → token (codes ")") rest ≡ o
      → Ends (length rest) (closed parse_f64 row place text b o)
  closed-Ends b rest none h = tt
  closed-Ends b rest (some behind) h = omega (arith, length-token (codes ")") rest h)

  leaf-Ends :
      (n : ℕ) (p : Text × Text) → length (p.1) ≤ n → Ends n (parse_leaf parse_f64 row place text p)
  unfolding ◌>>=◌
  leaf-Ends n (leaf, rest) h = by_value (evaluate_leaf parse_f64 row place (trim leaf))
    where
      by_value :
          (v : Result BaseQueryError Bool)
          → Ends n (map_err refused v >>= λ result. ok (result, rest))
      by_value (ok b) = h
      by_value (err e) = tt

  zero-HasFuel : HasFuel zero
  zero-HasFuel = record {
    at_or = λ s h. absurd (omega arith);
    at_or_loop = λ b s h. absurd (omega arith);
    at_and = λ s h. absurd (omega arith);
    at_and_loop = λ b s h. absurd (omega arith);
    at_not = λ s h. absurd (omega arith);
    at_primary = λ s h. absurd (omega arith);
  }

  module _ (f : ℕ) (ih : HasFuel f) where
    suc-HasFuel : HasFuel (suc f)
    unfolding parse_or
    suc-HasFuel = record {
      at_or = λ s h.
          then-Ends (length s) _ _ (ih.at_and s (omega arith))
            (λ b t le. less-Ends _ le (ih.at_or_loop b t (omega arith)));
      at_or_loop = λ b s h.
          token_either (Ends (length s)) (token (codes "||") s) _ _
            (λ t found.
              let shorter = length-token (codes "||") s found in
              then-Ends (length s) _ _ (ih.at_and t (omega arith))
                (λ c u le. less-Ends _ (omega arith) (ih.at_or_loop (b || c) u (omega arith))))
            (length-skip s);
      at_and = λ s h.
          then-Ends (length s) _ _ (ih.at_not s (omega arith))
            (λ b t le. less-Ends _ le (ih.at_and_loop b t (omega arith)));
      at_and_loop = λ b s h.
          token_either (Ends (length s)) (token (codes "&&") s) _ _
            (λ t found.
              let shorter = length-token (codes "&&") s found in
              then-Ends (length s) _ _ (ih.at_not t (omega arith))
                (λ c u le. less-Ends _ (omega arith) (ih.at_and_loop (b && c) u (omega arith))))
            (length-skip s);
      at_not = λ s h.
          token_either (Ends (length s)) (negation s) _ _
            (λ t found.
              let shorter = length-negation s found in
              then-Ends (length s) _ _ (ih.at_not t (omega arith)) (λ b u le. omega arith))
            (ih.at_primary s (omega arith));
      at_primary = λ s h.
          token_either (Ends (length s)) (token (codes "(") s) _ _
            (λ t found.
              let shorter = length-token (codes "(") s found in
              then-Ends (length s) _ _ (ih.at_or t (omega arith))
                (λ b u le. less-Ends _ (omega arith) (closed-Ends b u (token (codes ")") u) refl)))
            (leaf-Ends (length s) (scan_leaf (skip s)) (length-scan_leaf s));
    }

  enough : (f : ℕ) → HasFuel f
  enough zero = zero-HasFuel
  enough (suc f) = suc-HasFuel f (enough f)

  end_in_time : (b : Bool) (rest : Text) → at_end parse_f64 row place text b rest ≢ err out_of_fuel
  end_in_time b [] = λ e. cc
  end_in_time b (c ∷ rest) = λ e. cc

  parsed_in_time :
      (n : ℕ) (p : Result QueryFault (Bool × Text))
      → Ends n p
      → (p >>= λ (b, rest). at_end parse_f64 row place text b (skip rest)) ≢ err out_of_fuel
  unfolding ◌>>=◌
  parsed_in_time n (ok (b, t)) ends = end_in_time b (skip t)
  parsed_in_time n (err (refused e)) ends = λ e. cc
  parsed_in_time n (err out_of_fuel) ends = absurd ends

module _ (parse_f64 : Text → Option ℕ) (row : RowContext) where
  -- An expression is evaluated, or refused with an error, within the fuel for its text.
  pub evaluate_expression-Ends :
      (place expr : Text) → evaluate_expression parse_f64 row place expr ≢ err out_of_fuel
  unfolding evaluate_expression
  evaluate_expression-Ends place expr =
      parsed_in_time parse_f64 row place expr (length expr) _
        ((enough parse_f64 row place expr (fuel_for expr)).at_or expr (omega arith))
