-- ===== src/Query/Grammar/Steps.antt =====
-- What the steps of the evaluating parser read (crates/contextos-obsidian/src/base_query.rs).
use context_os_mcp.Prelude.{
  all, true, false, ◌++◌, strip_prefix, ℕ, arith, [], ◌==◌, Bool-cases, codes, some-injective, ◌∷◌,
  some, Bool, Option, Result, Text, ap, err, inl, inr, list_eq, nat_eq, none, ok, option_eq, refl,
  subst, sym, ◌>>=◌, ◌∙◌, ◌≡◌, ◌⊎◌,
}
use context_os_mcp.Query.Value.{QueryFault, out_of_fuel}
use context_os_mcp.Query.Expression.{
  is_ascii_whitespace, no_equals, negation, token, skip, on_token,
}
use context_os_mcp.Query.Grammar.{
  Clauses, no_clauses, or_clause, Factors, no_factors, and_factor, Factor, negated, group, leaf,
  is_blank, formula_text, clauses_text, clause_text, factors_text, factor_text, IsFormula, IsFactor,
}
use context_os_mcp.Query.Grammar.Leaf.{at_and, Next, at_text_end, at_close, at_or, next_text}

-- What may follow a formula, and what may follow a clause
pub data Stop : Type 0 where
  formula_end : Stop
  formula_close : Text → Stop

pub data OrStop : Type 0 where
  stop : Stop → OrStop
  clause_or : Text → OrStop

abbrev pub after_formula : Stop → Next
after_formula formula_end = at_text_end
after_formula (formula_close rest) = at_close rest

abbrev pub after_clause : OrStop → Next
after_clause (stop s) = after_formula s
after_clause (clause_or rest) = at_or rest

abbrev pub Parsed : Type 0
Parsed = Result QueryFault (Bool × Text)

-- A parser that has fuel gives a result, and leaves a text, up to the blanks in front of it.
abbrev pub Reads : Parsed → Result QueryFault Bool → Text → Type 0
Reads m result rest =
    (m ≡ err out_of_fuel) ⊎ ((t : Text) × (skip t ≡ skip rest) × (m ≡ (result >>= λ b. ok (b, t))))

pub then-Reads :
    (m : Parsed) (result : Result QueryFault Bool) (rest behind : Text) (k : Bool × Text → Parsed)
    (l : Bool → Result QueryFault Bool)
    → Reads m result rest
    → ((b : Bool) (t : Text) → skip t ≡ skip rest → Reads (k (b, t)) (l b) behind)
    → Reads (m >>= k) (result >>= l) behind
unfolding ◌>>=◌
then-Reads m result rest behind k l (inl out) next = inl (ap (λ p. p >>= k) out)
then-Reads m (err e) rest behind k l (inr (t, left, same)) next =
    inr (behind, refl, ap (λ p. p >>= k) same)
then-Reads m (ok b) rest behind k l (inr (t, left, same)) next =
    subst (λ p. Reads p (l b) behind) (sym (ap (λ p. p >>= k) same)) (next b t left)

-- A step that only moves on, to a text that is left
pub move-Reads :
    (m : Parsed) (result : Result QueryFault Bool) (rest u behind : Text) (k : Bool × Text → Parsed)
    → Reads m result rest
    → skip u ≡ skip behind
    → ((b : Bool) (t : Text) → skip t ≡ skip rest → k (b, t) ≡ ok (b, u))
    → Reads (m >>= k) result behind
unfolding ◌>>=◌
move-Reads m result rest u behind k (inl out) left next = inl (ap (λ p. p >>= k) out)
move-Reads m (err e) rest u behind k (inr (t, at, same)) left next =
    inr (u, left, ap (λ p. p >>= k) same)
move-Reads m (ok b) rest u behind k (inr (t, at, same)) left next =
    inr (u, left, ap (λ p. p >>= k) same ∙ next b t at)

pub answer-Reads : (b : Bool) (t rest : Text) → skip t ≡ skip rest → Reads (ok (b, t)) (ok b) rest
unfolding ◌>>=◌
answer-Reads b t rest left = inr (t, left, refl)

pub same-Reads :
    {m n : Parsed} (result : Result QueryFault Bool) (rest : Text)
    → m ≡ n
    → Reads n result rest
    → Reads m result rest
same-Reads result rest same reads = subst (λ p. Reads p result rest) (sym same) reads

-- Blanks are skipped.
blank_is_white : (c : ℕ) → is_blank c ≡ true → is_ascii_whitespace c ≡ true
blank_is_white c blank = ground arith

pub skip-blanks :
    (before rest : Text) → all is_blank before ≡ true → skip (before ++ rest) ≡ skip rest
unfolding skip
skip-blanks [] rest blank = refl
skip-blanks (c ∷ before) rest blank = elim (Bool-cases (is_blank c)) [
  | inl white ↦ rw (blank_is_white c white) (skip-blanks before rest (rw white at blank))
  | inr black ↦ absurd (cc (rw black at blank))
]

pub or_token : (s t : Text) → skip s ≡ skip (b'|' ∷ b'|' ∷ t) → token (codes "||") s ≡ some t
unfolding skip
or_token s t left = ap (strip_prefix (codes "||")) left

pub and_token : (s t : Text) → skip s ≡ skip (b'&' ∷ b'&' ∷ t) → token (codes "&&") s ≡ some t
unfolding skip
and_token s t left = ap (strip_prefix (codes "&&")) left

pub not_token :
    (before t : Text)
    → all is_blank before ≡ true
    → negation (before ++ b'!' ∷ t) ≡ no_equals (some t)
not_token before t blank =
    ap (λ s. no_equals (strip_prefix (codes "!") s)) (skip-blanks before (b'!' ∷ t) blank)
    ∙ (unfold skip in refl)

pub group_token :
    (before t : Text) → all is_blank before ≡ true → token (codes "(") (before ++ b'(' ∷ t) ≡ some t
group_token before t blank =
    ap (strip_prefix (codes "(")) (skip-blanks before (b'(' ∷ t) blank) ∙ (unfold skip in refl)

pub close_token : (s t : Text) → skip s ≡ skip (b')' ∷ t) → token (codes ")") s ≡ some t
unfolding skip
close_token s t left = ap (strip_prefix (codes ")")) left

group_is_no_not :
    (before t : Text) → all is_blank before ≡ true → negation (before ++ b'(' ∷ t) ≡ none
group_is_no_not before t blank =
    ap (λ s. no_equals (strip_prefix (codes "!") s)) (skip-blanks before (b'(' ∷ t) blank)
    ∙ (unfold skip in refl)

pub without_token :
    (o : Option Text)
    → o ≡ none
    → (found : Text → Parsed) (missing : Unit {0} → Parsed) → on_token o found missing ≡ missing tt
unfolding on_token
without_token none e found missing = refl
without_token (some t) e found missing = absurd (cc)

pub group_not :
    (before t : Text)
    → all is_blank before ≡ true
    → (found : Text → Parsed) (missing : Unit {0} → Parsed)
    → on_token (negation (before ++ b'(' ∷ t)) found missing ≡ missing tt
group_not before t blank found missing =
    without_token _ (group_is_no_not before t blank) found missing

pub with_token :
    (o : Option Text) {t : Text}
    → o ≡ some t
    → (found : Text → Parsed) (missing : Unit {0} → Parsed) → on_token o found missing ≡ found t
unfolding on_token
with_token none e found missing = absurd (cc)
with_token (some t) e found missing = ap found (some-injective _ _ e)

-- What follows a clause in front of other clauses, and a factor in front of other factors
pub follow_clause :
    (cs : Clauses) (s : Stop)
    → (o : OrStop) × (next_text (after_clause o) ≡ clauses_text cs (next_text (after_formula s)))
unfolding formula_text
follow_clause no_clauses s = (stop s, refl)
follow_clause (or_clause c cs) s =
    (clause_or (clause_text c (clauses_text cs (next_text (after_formula s)))), refl)

pub follow_factor :
    (xs : Factors) (o : OrStop)
    → (n : Next) × (next_text n ≡ factors_text xs (next_text (after_clause o)))
unfolding formula_text
follow_factor no_factors o = (after_clause o, refl)
follow_factor (and_factor x xs) o =
    (at_and (factor_text x (factors_text xs (next_text (after_clause o)))), refl)

no_equals-blanks :
    (before : Text) (c : ℕ) (t : Text)
    → all is_blank before ≡ true
    → (c == b'=') ≡ false
    → no_equals (some (before ++ c ∷ t)) ≡ some (before ++ c ∷ t)
no_equals-blanks [] c t blank other = rw other refl
no_equals-blanks (d ∷ before) c t blank other = elim (Bool-cases (d == b'=')) [
  | inl equals ↦ absurd (ground arith)
  | inr differs ↦ rw differs refl
]

-- The text of a factor begins with no equals sign.
pub no_equals-factor :
    (x : Factor) (rest : Text)
    → IsFactor x
    → no_equals (some (factor_text x rest)) ≡ some (factor_text x rest)
unfolding formula_text IsFormula
no_equals-factor (negated before x) rest is =
    no_equals-blanks before b'!' (factor_text x rest) is.0 refl
no_equals-factor (group before φ after) rest is =
    no_equals-blanks before b'(' (formula_text φ (b')' ∷ (after ++ rest))) is.0 refl
no_equals-factor (leaf []) rest is = absurd (cc (is.1))
no_equals-factor (leaf (c ∷ cs)) rest is = elim (Bool-cases (c == b'=')) [
  | inl equals ↦ absurd (cc (rw equals at is.1))
  | inr other ↦ rw other refl
]
