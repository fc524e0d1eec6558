-- ===== src/Examples/Queries.antt =====
-- Queries over a concrete note.
use context_os_mcp.Prelude.{
  Option, Text, [], codes, err, list_eq, nat_eq, none, ok, option_eq, refl, some, trim_end_matches,
  true, ℕ, ◌>>=◌, ◌∷◌, ◌≡◌, ◌≢◌,
}
use context_os_mcp.FilePath.{is_slash}
use context_os_mcp.Vault.Confine.{split_once}
use context_os_mcp.Query.Value.{
  RowContext, refused, out_of_fuel, unsupported_filter_expression, Value, number, string, array,
  object, no_values, value, no_members, member, value_beq, pos_int,
}
use context_os_mcp.Query.Leaf.{
  parse_quoted, parse_comparison, parse_contains, in_folder, parse_i64, parse_literal,
  file_property, validate_property_name, resolve_property, evaluate_leaf,
}
use context_os_mcp.Query.Grammar.{
  Formula, either, no_clauses, or_clause, Clause, both, no_factors, and_factor, negated, group,
  leaf, formula_text, IsFormula, meaning,
}
use context_os_mcp.Query.Grammar.Reads.{evaluate_expression-meaning}
use context_os_mcp.Query.Expression.{
  skip, on_token, leaf_step, scan_from, scan_leaf, parse_or, evaluate_expression,
}
use context_os_mcp.Query.Filter.{evaluate_node, evaluate_filters}
use context_os_mcp.Query.Hint.{
  merge_or_hints, leaf_scan_hint, hint_or, expression_scan_hint, node_hint, scan_root_hint,
  narrowed,
}
use context_os_mcp.Query.Hint.Below.{IsBelow, narrowed-IsBelow}
use context_os_mcp.Query.Ends.Tree.{evaluate_filters-Ends}

abbrev no_floats : Text → Option ℕ
no_floats s = none

abbrev note : RowContext
note = record {
  frontmatter =
      member (codes "status") (string (codes "active"))
        (member (codes "priority") (number (pos_int 3)) no_members);
  file = record {
    name = codes "plan.md";
    basename = codes "plan";
    path = codes "work/plan.md";
    ext = codes "md";
    folder = codes "work";
    size = 120;
    ctime = none;
    mtime = none;
  };
  tags = codes "project" ∷ [];
  links = [];
  embeds = [];
  backlinks = [];
}

abbrev formula : Text
formula = codes "file.inFolder('work') && (priority == 3 || !file.hasTag(\"done\"))"

-- A conjunction, of which the first operand has a hint.
abbrev filters : Option Value
filters = some (
    object (
      member (codes "and")
        (array (value (string formula) (value (string (codes "status != 'done'")) no_values)))
        no_members))

filters_hold : evaluate_filters no_floats note filters ≡ ok true
unfolding evaluate_filters evaluate_node evaluate_expression parse_or on_token skip scan_leaf
    scan_from leaf_step evaluate_leaf parse_quoted parse_comparison parse_contains parse_literal
    parse_i64 resolve_property validate_property_name file_property in_folder split_once value_beq
    ◌>>=◌
filters_hold = refl

filters_narrow : narrowed (scan_root_hint filters) ≡ some (codes "work")
unfolding narrowed scan_root_hint node_hint expression_scan_hint hint_or merge_or_hints
    leaf_scan_hint on_token skip scan_leaf scan_from leaf_step parse_quoted parse_comparison
    split_once
filters_narrow = refl

narrowed-IsBelow_example : IsBelow (trim_end_matches is_slash (codes "work")) (codes "work/plan.md")
narrowed-IsBelow_example =
    narrowed-IsBelow no_floats note filters filters_narrow (λ e. cc) (codes "plan.md", λ e. refl)
      filters_hold

evaluate_filters-Ends_example : evaluate_filters no_floats note filters ≢ err out_of_fuel
evaluate_filters-Ends_example = evaluate_filters-Ends no_floats note filters

-- Two folders: no directory holds all matches.
either_folder :
    scan_root_hint (some (string (codes "file.folder == 'a' || file.folder == 'b'"))) ≡ none
unfolding scan_root_hint node_hint expression_scan_hint hint_or merge_or_hints leaf_scan_hint
    on_token skip scan_leaf scan_from leaf_step parse_quoted parse_comparison split_once
either_folder = refl

-- A negated folder is not narrowed to.
negated_folder : scan_root_hint (some (string (codes "!(file.folder == 'work')"))) ≡ none
unfolding scan_root_hint node_hint expression_scan_hint hint_or merge_or_hints leaf_scan_hint
    on_token skip scan_leaf scan_from leaf_step parse_quoted parse_comparison split_once
negated_folder = refl

-- A parenthesis that is not closed
unclosed :
    evaluate_expression no_floats note (codes "filters") (codes "(status == 'active'")
    ≡ err (refused (unsupported_filter_expression (codes "filters") (codes "(status == 'active'")))
unfolding evaluate_expression parse_or on_token skip scan_leaf scan_from leaf_step evaluate_leaf
    parse_quoted parse_comparison parse_contains parse_literal parse_i64 resolve_property
    validate_property_name file_property in_folder split_once value_beq ◌>>=◌
unclosed = refl

-- An inequality sign in a quoted text is taken for the operator.
quoted_sign :
    evaluate_leaf no_floats note (codes "filters") (codes "status == 'a!=b'")
    ≡ err (unsupported_filter_expression (codes "filters") (codes "b'"))
unfolding evaluate_leaf parse_quoted parse_comparison parse_contains parse_literal parse_i64
    resolve_property validate_property_name file_property in_folder split_once value_beq ◌>>=◌
quoted_sign = refl

-- A folder that is named with a slash at its end keeps it, and the names of its files have two.
slash_kept :
    narrowed (scan_root_hint (some (string (codes "file.inFolder('work/')"))))
    ≡ some (codes "work/")
unfolding narrowed scan_root_hint node_hint expression_scan_hint hint_or merge_or_hints
    leaf_scan_hint on_token skip scan_leaf scan_from leaf_step parse_quoted parse_comparison
    split_once
slash_kept = refl

-- A leaf that is alone in its clause
abbrev alone : Text → Clause
alone s = both (leaf s) no_factors

abbrev busy : Formula
busy =
    either
      (both (leaf (codes "file.inFolder('work') ")) (
        and_factor
          (group (codes " ")
            (either (alone (codes "priority == 3 ")) (
              or_clause
                (both (negated (codes " ") (leaf (codes " file.hasTag(\"a && b\")"))) no_factors)
                no_clauses))
            (codes " "))
          (and_factor
            (negated (codes " ")
              (group [] (either (alone (codes "priority == 4")) no_clauses) (codes " ")))
            no_factors)))
      no_clauses

busy_text :
    formula_text busy []
    ≡ codes
        "file.inFolder('work') && (priority == 3 || ! file.hasTag(\"a && b\")) && !(priority == 4) "
unfolding formula_text
busy_text = refl

busy-IsFormula : IsFormula busy
unfolding IsFormula skip scan_leaf scan_from leaf_step
busy-IsFormula = (
  (
    (refl, refl, refl, refl, refl, refl),
    (
      (
        refl,
        (
          ((refl, refl, refl, refl, refl, refl), tt),
          (((refl, (refl, refl, refl, refl, refl, refl)), tt), tt),
        ),
        refl,
      ),
      ((refl, (refl, (((refl, refl, refl, refl, refl, refl), tt), tt), refl)), tt),
    ),
  ),
  tt,
)

evaluate_expression-meaning_example :
    evaluate_expression no_floats note (codes "filters") (formula_text busy [])
    ≡ meaning no_floats note (codes "filters") busy
evaluate_expression-meaning_example =
    evaluate_expression-meaning no_floats note (codes "filters") busy busy-IsFormula
