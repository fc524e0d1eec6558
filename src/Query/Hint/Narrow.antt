-- ===== src/Query/Hint/Narrow.antt =====
-- Filters that are true hold of rows within their hint only.
use context_os_mcp.Prelude.{
  Bool, Bool-cases, Option, Text, ap, arith, bind-eq-ok, codes, false, inl, inr, list_eq, nat_eq,
  none, ok, ok-injective, option_eq, some, true, ℕ, ◌&&◌, ◌+◌, ◌==◌, ◌||◌, ◌∙◌, ◌≡◌, ◌⊎◌,
}
use context_os_mcp.Query.Value.{
  RowContext, Value, null, bool, number, string, array, object, Values, no_values, value,
  no_members, member,
}
use context_os_mcp.Query.Filter.{
  Operator, all_of, any_of, operand_path, evaluate_node, evaluate_operands, evaluate_filters,
}
use context_os_mcp.Query.Hint.{
  ScanRootHint, Hint, or_hint, first_hint, node_hint, operand_hints, scan_root_hint,
}
use context_os_mcp.Query.Hint.Leaves.{Within}
use context_os_mcp.Query.Hint.Sound.{expression-Within, AreHint, merge-AreHint}

module _ (parse_f64 : Text → Option ℕ) (row : RowContext) where
  abbrev Evaluated : Values → Operator → Text → Text → ℕ → Bool → Type 0
  Evaluated items operator name place index result =
      evaluate_operands parse_f64 row items operator name place index result ≡ ok true

  -- A conjunction that is true was true before.
  still_true :
      (items : Values) (name place : Text) (index : ℕ) (result : Bool)
      → Evaluated items all_of name place index result
      → result ≡ true
  unfolding evaluate_node
  still_true no_values name place index result h = ok-injective h
  still_true (value operand items) name place index result h =
      let (v, first, more) =
        bind-eq-ok (evaluate_node parse_f64 row operand (operand_path place name index)) _ h in
      let both = still_true items name place (index + 1) (result && v) more in ground (arith, both)

  or_some : (a b : Hint) {g : ScanRootHint} → or_hint a b ≡ some g → (a ≡ some g) ⊎ (b ≡ some g)
  or_some none b h = inr h
  or_some (some x) b h = inl h

  mutual
    unfolding evaluate_node node_hint

    node-Within :
        (v : Value) (place : Text) (g : ScanRootHint)
        → node_hint v ≡ some g
        → evaluate_node parse_f64 row v place ≡ ok true
        → Within row g
    node-Within (string expr) place g hint h = expression-Within parse_f64 row place expr hint h
    node-Within (object (member name (array items) more)) place g hint h =
        elim (Bool-cases (name == codes "and")) [
          | inl conj ↦ and-Within items name place 0 true g (rw conj at hint) (rw conj at h)
          | inr other ↦ elim (Bool-cases (name == codes "or")) [
            | inl disj ↦
                or-Within items name place 0 false g (λ e. absurd (cc))
                  (merge-AreHint (operand_hints items) (rw disj at (rw other at hint)))
                  (rw disj at (rw other at h))
            | inr neither ↦ absurd (cc (rw neither at (rw other at hint)))
          ]
        ]
    node-Within (object (member name null more)) place g hint h = absurd (cc)
    node-Within (object (member name (bool b) more)) place g hint h = absurd (cc)
    node-Within (object (member name (number n) more)) place g hint h = absurd (cc)
    node-Within (object (member name (string s) more)) place g hint h = absurd (cc)
    node-Within (object (member name (object o) more)) place g hint h = absurd (cc)
    node-Within (object no_members) place g hint h = absurd (cc)
    node-Within null place g hint h = absurd (cc)
    node-Within (bool b) place g hint h = absurd (cc)
    node-Within (number n) place g hint h = absurd (cc)
    node-Within (array items) place g hint h = absurd (cc)

    and-Within :
        (items : Values) (name place : Text) (index : ℕ) (result : Bool) (g : ScanRootHint)
        → first_hint (operand_hints items) ≡ some g
        → Evaluated items all_of name place index result
        → Within row g
    and-Within no_values name place index result g hint h = absurd (cc)
    and-Within (value operand items) name place index result g hint h =
        let (v, first, more) =
          bind-eq-ok (evaluate_node parse_f64 row operand (operand_path place name index)) _ h in
        let both = still_true items name place (index + 1) (result && v) more in
        elim (or_some (node_hint operand) (first_hint (operand_hints items)) hint) [
          | inl here ↦
              let holds : v ≡ true = ground (arith, both) in
              node-Within operand (operand_path place name index) g here (first ∙ ap ok holds)
          | inr later ↦ and-Within items name place (index + 1) (result && v) g later more
        ]

    or-Within :
        (items : Values) (name place : Text) (index : ℕ) (result : Bool) (g : ScanRootHint)
        → (result ≡ true → Within row g)
        → AreHint g (operand_hints items)
        → Evaluated items any_of name place index result
        → Within row g
    or-Within no_values name place index result g before same h = before (ok-injective h)
    or-Within (value operand items) name place index result g before (here, same) h =
        let (v, first, more) =
          bind-eq-ok (evaluate_node parse_f64 row operand (operand_path place name index)) _ h in
        or-Within items name place (index + 1) (result || v) g
          (λ e. elim (Bool-cases result) [
            | inl already ↦ before already
            | inr not_yet ↦
                node-Within operand (operand_path place name index) g here
                  (first ∙ ap ok (rw not_yet at e))
          ])
          same more

  -- If the filters are true of a row, the row is within their hint.
  pub filters-Within :
      (filters : Option Value) {g : ScanRootHint}
      → scan_root_hint filters ≡ some g
      → evaluate_filters parse_f64 row filters ≡ ok true
      → Within row g
  unfolding scan_root_hint evaluate_filters
  filters-Within none hint h = absurd (cc)
  filters-Within (some v) {g} hint h = node-Within v (codes "filters") g hint h
