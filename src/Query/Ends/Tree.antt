-- ===== src/Query/Ends/Tree.antt =====
-- The evaluation of a filter tree ends (crates/contextos-obsidian/src/base_query.rs).
use context_os_mcp.Prelude.{
  Bool, Option, Result, Text, codes, err, list_eq, nat_eq, none, ok, option_eq, refl, some, ℕ, ◌+◌,
  ◌>>=◌, ◌≢◌,
}
use context_os_mcp.Query.Value.{
  RowContext, QueryFault, refused, out_of_fuel, Value, null, bool, number, string, array, object,
  Values, no_values, value, no_members, member,
}
use context_os_mcp.Query.Filter.{
  Operator, operator_of, operand_path, operands, combine, start, evaluate_node, evaluate_operands,
  evaluate_filters,
}
use context_os_mcp.Query.Ends.Parser.{evaluate_expression-Ends}

then-Ends :
    (p : Result QueryFault Bool) (k : Bool → Result QueryFault Bool)
    → p ≢ err out_of_fuel
    → ((b : Bool) → k b ≢ err out_of_fuel)
    → (p >>= k) ≢ err out_of_fuel
unfolding ◌>>=◌
then-Ends (ok b) k first next = next b
then-Ends (err (refused e)) k first next = λ h. cc
then-Ends (err out_of_fuel) k first next = absurd (first refl)

operands-Ends :
    (name place : Text) (o : Option Operator) (k : Operator → Result QueryFault Bool)
    → ((operator : Operator) → k operator ≢ err out_of_fuel)
    → operands name o k place ≢ err out_of_fuel
operands-Ends name place none k next = λ e. cc
operands-Ends name place (some operator) k next = next operator

module _ (parse_f64 : Text → Option ℕ) (row : RowContext) where
  mutual
    unfolding evaluate_node

    node-Ends : (v : Value) (place : Text) → evaluate_node parse_f64 row v place ≢ err out_of_fuel
    node-Ends (string expr) place = evaluate_expression-Ends parse_f64 row place expr
    node-Ends (object (member name (array items) more)) place =
        operands-Ends name place (operator_of name) _
          (λ operator. list-Ends items operator name place 0 (start operator))
    node-Ends (object (member name null more)) place = λ e. cc
    node-Ends (object (member name (bool b) more)) place = λ e. cc
    node-Ends (object (member name (number n) more)) place = λ e. cc
    node-Ends (object (member name (string s) more)) place = λ e. cc
    node-Ends (object (member name (object o) more)) place = λ e. cc
    node-Ends (object no_members) place = λ e. cc
    node-Ends null place = λ e. cc
    node-Ends (bool b) place = λ e. cc
    node-Ends (number n) place = λ e. cc
    node-Ends (array items) place = λ e. cc

    list-Ends :
        (items : Values) (operator : Operator) (name place : Text) (index : ℕ) (result : Bool)
        → evaluate_operands parse_f64 row items operator name place index result ≢ err out_of_fuel
    list-Ends no_values operator name place index result = λ e. cc
    list-Ends (value operand items) operator name place index result =
        then-Ends _ _ (node-Ends operand (operand_path place name index))
          (λ v. list-Ends items operator name place (index + 1) (combine operator result v))

  -- Whatever reads a float, and for every row: the evaluation of filters never runs out of fuel,
  -- so it ends with a value or a typed error.
  pub evaluate_filters-Ends :
      (filters : Option Value) → evaluate_filters parse_f64 row filters ≢ err out_of_fuel
  unfolding evaluate_filters
  evaluate_filters-Ends none = λ e. cc
  evaluate_filters-Ends (some v) = node-Ends v (codes "filters")
