-- ===== src/Query/Hint/Sound.antt =====
-- An expression or a filter that is true holds of rows within its hint only: the walk for the hint
-- goes where the evaluating parser goes.
use context_os_mcp.Prelude.{
  All, Bool, Bool-cases, List, Option, Result, Text, [], all, ap, bind-eq-ok, codes, err, false,
  inl, inr, list_beq_iff, list_eq, map_err, map_err-eq-ok, nat_eq, none, not, ok, ok-injective,
  option_eq, refl, some, some-injective, subst, suc, sym, trim, true, zero, ℕ, ◌&&◌, ◌++◌, ◌>>=◌,
  ◌||◌, ◌∙◌, ◌∷◌, ◌≡◌,
}
use context_os_mcp.Query.Value.{RowContext, QueryFault, refused}
use context_os_mcp.Query.Leaf.{evaluate_leaf}
use context_os_mcp.Query.Expression.{
  skip, token, negation, on_token, scan_leaf, fuel_for, closed, parse_leaf, at_end, parse_or,
  or_loop, parse_and, and_loop, parse_not, parse_primary, evaluate_expression,
}
use context_os_mcp.Query.Hint.{
  ScanRootHint, folder, path, Hint, hint_beq, is_hint, merge_or_hints, or_hint, leaf_scan_hint,
  Walk, continue, closed_hint, leaf_walk, hint_or, hint_or_loop, hint_and, hint_and_loop, hint_not,
  hint_primary, hint_at_end, walked, expression_scan_hint,
}
use context_os_mcp.Query.Hint.Leaves.{Within, leaf-Within}

hint_beq_eq : (a b : ScanRootHint) → hint_beq a b ≡ true → a ≡ b
hint_beq_eq (folder a) (folder b) h = ap folder ((list_beq_iff a b).0 h)
hint_beq_eq (path a) (path b) h = ap path ((list_beq_iff a b).0 h)
hint_beq_eq (folder a) (path b) h = cc
hint_beq_eq (path a) (folder b) h = cc

abbrev pub AreHint : ScanRootHint → List Hint → Type 0
AreHint g hints = All (λ h. h ≡ some g) hints

all-AreHint :
    (g : ScanRootHint) (hints : List Hint) → all (is_hint g) hints ≡ true → AreHint g hints
all-AreHint g [] h = tt
all-AreHint g (none ∷ hints) h = absurd (cc)
all-AreHint g (some other ∷ hints) h = elim (Bool-cases (hint_beq other g)) [
  | inl same ↦ (ap some (hint_beq_eq other g same), all-AreHint g hints (rw same at h))
  | inr differs ↦ absurd (cc (rw differs at h))
]

-- Hints that merge to one are all that one.
pub merge-AreHint :
    (hints : List Hint) {g : ScanRootHint} → merge_or_hints hints ≡ some g → AreHint g hints
unfolding merge_or_hints
merge-AreHint [] h = absurd (cc)
merge-AreHint (none ∷ hints) h = absurd (cc)
merge-AreHint (some first ∷ hints) {g} h = elim (Bool-cases (all (is_hint first) hints)) [
  | inl agree ↦
      let same = some-injective first g (rw agree at h) in
      subst (λ x. AreHint x (some first ∷ hints)) same (refl, all-AreHint first hints agree)
  | inr differ ↦ absurd (cc (rw differ at h))
]

module _ (row : RowContext) where
  -- A hint of a formula whose value is known.
  abbrev pub Narrows : Hint → Bool → Type 0
  Narrows hint b = (g : ScanRootHint) → hint ≡ some g → b ≡ true → Within row g

  abbrev Covers : List Hint → Bool → Type 0
  Covers hints b = (g : ScanRootHint) → AreHint g hints → b ≡ true → Within row g

  covers_more :
      (hints : List Hint) (b : Bool) (hint : Hint) (c : Bool)
      → Covers hints b
      → Narrows hint c
      → Covers (hints ++ hint ∷ []) (b || c)
  covers_more hints b hint c cov nar g same h =
      let (first, last) = split hints same in
      elim b as (λ b. (b ≡ true → Within row g) → (b || c) ≡ true → Within row g) [
        | true ↦ λ k e. k refl
        | false ↦ λ k e. nar g last e
      ]
        (cov g first) h
    where
      split : (hs : List Hint) → AreHint g (hs ++ hint ∷ []) → AreHint g hs × (hint ≡ some g)
      split [] (e, _) = (tt, e)
      split (x ∷ hs) (e, more) = let (a, b) = split hs more in ((e, a), b)

  merge-Narrows : (hints : List Hint) (b : Bool) → Covers hints b → Narrows (merge_or_hints hints) b
  merge-Narrows hints b cov g h e = cov g (merge-AreHint hints h) e

  and-Narrows :
      (h : Hint) (b : Bool) (k : Hint) (c : Bool)
      → Narrows h b
      → Narrows k c
      → Narrows (or_hint h k) (b && c)
  and-Narrows none true k c nar mar g e t = mar g e t
  and-Narrows (some x) true k c nar mar g e t = nar g e refl
  and-Narrows h false k c nar mar g e t = absurd (cc)

  no-Narrows : (b : Bool) → Narrows none b
  no-Narrows b g h e = absurd (cc)

  abbrev Parsed : Type 0
  Parsed = Result QueryFault (Bool × Text)

  -- Where a text is parsed, the walk ends at the same place, with a hint for the value.
  abbrev pub Follows : Parsed → Walk → Type 0
  Follows m w = (b : Bool) (t : Text) → m ≡ ok (b, t) → (h : Hint) × (w ≡ some (h, t)) × Narrows h b

  stop : (e : QueryFault) (w : Walk) → Follows (err e) w
  stop e w b t h = absurd (cc)

  answer : (b : Bool) (h : Hint) (t : Text) → Narrows h b → Follows (ok (b, t)) (some (h, t))
  answer b h t nar c u e =
      let same = ok-injective e in
      (h, ap (λ r. some (h, r)) (ap (λ p. p.1) same), subst (Narrows h) (ap (λ p. p.0) same) nar)

  then_follows :
      (m : Parsed) (w : Walk) (k : Bool × Text → Parsed) (l : Hint × Text → Walk)
      → Follows m w
      → ((b : Bool) (t : Text) (h : Hint) → Narrows h b → Follows (k (b, t)) (l (h, t)))
      → Follows (m >>= k) (continue w l)
  then_follows m w k l first next c u e =
      let ((b, t), parsed, more) = bind-eq-ok m k e in
      let (h, walked, nar) = first b t parsed in
      let (g, there, nar') = next b t h nar c u more in
      (g, ap (λ v. continue v l) walked ∙ there, nar')

  token_follows :
      (o : Option Text) (found : Text → Parsed) (found' : Text → Walk) (missing : Unit {0} → Parsed)
      (missing' : Unit {0} → Walk)
      → ((t : Text) → Follows (found t) (found' t))
      → Follows (missing tt) (missing' tt)
      → Follows (on_token o found missing) (on_token o found' missing')
  unfolding on_token
  token_follows none found found' missing missing' yes_ no_ = no_
  token_follows (some t) found found' missing missing' yes_ no_ = yes_ t

module _ (parse_f64 : Text → Option ℕ) (row : RowContext) (place text : Text) where
  record IsSound (f : ℕ) : Type 0 where
    at_or : (s : Text) → Follows row (parse_or parse_f64 row place text f s) (hint_or f s)
    at_or_loop :
        (hints : List Hint) (b : Bool) (s : Text)
        → Covers row hints b
        → Follows row (or_loop parse_f64 row place text f b s) (hint_or_loop f hints s)
    at_and : (s : Text) → Follows row (parse_and parse_f64 row place text f s) (hint_and f s)
    at_and_loop :
        (hint : Hint) (b : Bool) (s : Text)
        → Narrows row hint b
        → Follows row (and_loop parse_f64 row place text f b s) (hint_and_loop f hint s)
    at_not : (s : Text) → Follows row (parse_not parse_f64 row place text f s) (hint_not f s)
    at_primary :
        (s : Text) → Follows row (parse_primary parse_f64 row place text f s) (hint_primary f s)

  close_follows :
      (b : Bool) (h : Hint) (rest : Text) (o : Option Text)
      → Narrows row h b
      → Follows row (closed parse_f64 row place text b o) (closed_hint h rest o)
  close_follows b h rest none nar = stop row _ _
  close_follows b h rest (some behind) nar = answer row b h behind nar

  leaf_follows :
      (p : Text × Text) → Follows row (parse_leaf parse_f64 row place text p) (leaf_walk p)
  leaf_follows (leaf, rest) b t e =
      let (c, evaluated, more) =
        bind-eq-ok (map_err refused (evaluate_leaf parse_f64 row place (trim leaf))) _ e in
      let value = map_err-eq-ok refused _ evaluated in
      let nar = λ (g : ScanRootHint) (h : leaf_scan_hint (trim leaf) ≡ some g) (d : c ≡ true).
        leaf-Within parse_f64 row place (trim leaf) h (value ∙ ap ok d) in
      answer row c (leaf_scan_hint (trim leaf)) rest nar b t more

  IsSound-zero : IsSound zero
  unfolding parse_or
  IsSound-zero = record {
    at_or = λ s. stop row _ _;
    at_or_loop = λ hints b s cov. stop row _ _;
    at_and = λ s. stop row _ _;
    at_and_loop = λ hint b s nar. stop row _ _;
    at_not = λ s. stop row _ _;
    at_primary = λ s. stop row _ _;
  }

  module _ (f : ℕ) (ih : IsSound f) where
    IsSound-suc : IsSound (suc f)
    unfolding parse_or hint_or
    IsSound-suc = record {
      at_or = λ s.
          then_follows row _ _ _ _ (ih.at_and s)
            (λ b t h nar. ih.at_or_loop (h ∷ []) b t (λ g same d. nar g same.0 d));
      at_or_loop = λ hints b s cov.
          token_follows row (token (codes "||") s) _ _ _ _
            (λ t. then_follows row _ _ _ _ (ih.at_and t) (λ c u h nar.
              ih.at_or_loop (hints ++ h ∷ []) (b || c) u (covers_more row hints b h c cov nar)))
            (answer row b (merge_or_hints hints) (skip s) (merge-Narrows row hints b cov));
      at_and = λ s. then_follows row _ _ _ _ (ih.at_not s) (λ b t h nar. ih.at_and_loop h b t nar);
      at_and_loop = λ hint b s nar.
          token_follows row (token (codes "&&") s) _ _ _ _
            (λ t. then_follows row _ _ _ _ (ih.at_not t) (λ c u h mar.
              ih.at_and_loop (or_hint hint h) (b && c) u (and-Narrows row hint b h c nar mar)))
            (answer row b hint (skip s) nar);
      at_not = λ s.
          token_follows row (negation s) _ _ _ _
            (λ t.
              then_follows row _ _ _ _ (ih.at_not t)
                (λ b u h nar. answer row (not b) none u (no-Narrows row (not b))))
            (ih.at_primary s);
      at_primary = λ s.
          token_follows row (token (codes "(") s) _ _ _ _
            (λ t.
              then_follows row _ _ _ _ (ih.at_or t)
                (λ b u h nar. close_follows b h u (token (codes ")") u) nar))
            (leaf_follows (scan_leaf (skip s)));
    }

  sound : (f : ℕ) → IsSound f
  sound zero = IsSound-zero
  sound (suc f) = IsSound-suc f (sound f)

  at_end-Within :
      (b : Bool) (h : Hint) (rest : Text) {g : ScanRootHint}
      → Narrows row h b
      → hint_at_end h rest ≡ some g
      → at_end parse_f64 row place text b rest ≡ ok true
      → Within row g
  at_end-Within b h [] {g} nar hint e = nar g hint (ok-injective e)
  at_end-Within b h (c ∷ rest) nar hint e = absurd (cc)

-- If an expression is true of a row, the row is within the expression's hint.
pub expression-Within :
    (parse_f64 : Text → Option ℕ) (row : RowContext) (place expr : Text) {g : ScanRootHint}
    → expression_scan_hint expr ≡ some g
    → evaluate_expression parse_f64 row place expr ≡ ok true
    → Within row g
unfolding expression_scan_hint evaluate_expression
expression-Within parse_f64 row place expr hint e =
    let ((b, rest), parsed, more) =
      bind-eq-ok (parse_or parse_f64 row place expr (fuel_for expr) expr) _ e in
    let (h, there, nar) =
      (sound parse_f64 row place expr (fuel_for expr)).at_or expr b rest parsed in
    at_end-Within parse_f64 row place expr b h (skip rest) nar (sym (ap walked there) ∙ hint) more
