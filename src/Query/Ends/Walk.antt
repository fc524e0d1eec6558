-- ===== src/Query/Ends/Walk.antt =====
-- The walk for a hint ends within its fuel (crates/contextos-obsidian/src/base_query.rs).
use context_os_mcp.Prelude.{
  List, Option, Text, [], arith, codes, length, list_eq, nat_eq, none, option_eq, refl, some, suc,
  zero, ℕ, ◌*◌, ◌++◌, ◌+◌, ◌∷◌, ◌≡◌, ◌≤◌,
}
use context_os_mcp.Query.Expression.{token, negation, fuel_for}
use context_os_mcp.Query.Hint.{
  Hint, or_hint, Walk, continue, closed_hint, hint_or, hint_or_loop, hint_and, hint_and_loop,
  hint_not, hint_primary,
}
use context_os_mcp.Query.Ends.{
  length-skip, length-token, length-negation, length-scan_leaf, token_either,
}

-- A walk that has ended, with a text that is not longer than a bound.
abbrev Ends : ℕ → Walk → Type 0
Ends n none = ⊥
Ends n (some (h, t)) = length t ≤ n

then-Ends :
    {m : ℕ} (n : ℕ) (p : Walk) (k : Hint × Text → Walk)
    → Ends m p
    → ((h : Hint) (t : Text) → length t ≤ m → Ends n (k (h, t)))
    → Ends n (continue p k)
then-Ends n (some (h, t)) k first next = next h t first
then-Ends n none k first next = absurd first

less-Ends : {m n : ℕ} (p : Walk) → m ≤ n → Ends m p → Ends n p
less-Ends (some (h, t)) le e = omega arith
less-Ends none le e = e

-- The fuel that each part of the walk needs.
record HasFuel (f : ℕ) : Type 0 where
  at_or : (s : Text) → 5 * length s + 5 ≤ f → Ends (length s) (hint_or f s)
  at_or_loop :
      (hints : List Hint) (s : Text)
      → 5 * length s + 1 ≤ f
      → Ends (length s) (hint_or_loop f hints s)
  at_and : (s : Text) → 5 * length s + 4 ≤ f → Ends (length s) (hint_and f s)
  at_and_loop :
      (hint : Hint) (s : Text) → 5 * length s + 1 ≤ f → Ends (length s) (hint_and_loop f hint s)
  at_not : (s : Text) → 5 * length s + 3 ≤ f → Ends (length s) (hint_not f s)
  at_primary : (s : Text) → 5 * length s + 2 ≤ f → Ends (length s) (hint_primary f s)

closed-Ends :
    (h : Hint) (rest : Text) (o : Option Text)
    → token (codes ")") rest ≡ o
    → Ends (length rest) (closed_hint h rest o)
closed-Ends h rest none e = length-skip rest
closed-Ends h rest (some behind) e = omega (arith, length-token (codes ")") rest e)

zero-HasFuel : HasFuel zero
zero-HasFuel = record {
  at_or = λ s h. absurd (omega arith);
  at_or_loop = λ hints s h. absurd (omega arith);
  at_and = λ s h. absurd (omega arith);
  at_and_loop = λ hint s h. absurd (omega arith);
  at_not = λ s h. absurd (omega arith);
  at_primary = λ s h. absurd (omega arith);
}

module _ (f : ℕ) (ih : HasFuel f) where
  suc-HasFuel : HasFuel (suc f)
  unfolding hint_or
  suc-HasFuel = record {
    at_or = λ s h.
        then-Ends (length s) _ _ (ih.at_and s (omega arith))
          (λ b t le. less-Ends _ le (ih.at_or_loop (b ∷ []) t (omega arith)));
    at_or_loop = λ hints s h.
        token_either (Ends (length s)) (token (codes "||") s) _ _
          (λ t found.
            let shorter = length-token (codes "||") s found in
            then-Ends (length s) _ _ (ih.at_and t (omega arith)) (λ c u le.
              less-Ends _ (omega arith) (ih.at_or_loop (hints ++ c ∷ []) u (omega arith))))
          (length-skip s);
    at_and = λ s h.
        then-Ends (length s) _ _ (ih.at_not s (omega arith))
          (λ b t le. less-Ends _ le (ih.at_and_loop b t (omega arith)));
    at_and_loop = λ hint s h.
        token_either (Ends (length s)) (token (codes "&&") s) _ _
          (λ t found.
            let shorter = length-token (codes "&&") s found in
            then-Ends (length s) _ _ (ih.at_not t (omega arith)) (λ c u le.
              less-Ends _ (omega arith) (ih.at_and_loop (or_hint hint c) u (omega arith))))
          (length-skip s);
    at_not = λ s h.
        token_either (Ends (length s)) (negation s) _ _
          (λ t found.
            let shorter = length-negation s found in
            then-Ends (length s) _ _ (ih.at_not t (omega arith)) (λ b u le. omega arith))
          (ih.at_primary s (omega arith));
    at_primary = λ s h.
        token_either (Ends (length s)) (token (codes "(") s) _ _
          (λ t found.
            let shorter = length-token (codes "(") s found in
            then-Ends (length s) _ _ (ih.at_or t (omega arith))
              (λ b u le. less-Ends _ (omega arith) (closed-Ends b u (token (codes ")") u) refl)))
          (length-scan_leaf s);
  }

enough : (f : ℕ) → HasFuel f
enough zero = zero-HasFuel
enough (suc f) = suc-HasFuel f (enough f)

ended : {n : ℕ} (w : Walk) → Ends n w → (h : Hint) × (t : Text) × (w ≡ some (h, t)) × (length t ≤ n)
ended (some (h, t)) ends = (h, t, refl, ends)
ended none ends = absurd ends

-- The walk of a text ends within its fuel, at a text that is not longer.
hint_or-Ends :
    (s : Text)
    → (h : Hint) × (t : Text) × (hint_or (fuel_for s) s ≡ some (h, t)) × (length t ≤ length s)
hint_or-Ends s = ended (hint_or (fuel_for s) s) ((enough (fuel_for s)).at_or s (omega arith))
