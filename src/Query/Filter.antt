-- ===== src/Query/Filter.antt =====
-- Filter trees: `evaluate_filters` and `evaluate_node` (crates/contextos-obsidian/src/base_query.rs).
use context_os_mcp.Prelude.{
  Bool, Option, Result, Text, codes, decimal, err, false, if◌then◌else◌, list_eq, nat_eq, none, not,
  ok, option_eq, some, true, ℕ, ◌&&◌, ◌++◌, ◌+◌, ◌==◌, ◌>>=◌, ◌||◌,
}
use context_os_mcp.Query.Value.{
  RowContext, QueryFault, refused, malformed_definition, Value, string, array, object, Values,
  no_values, value, no_members, member,
}
use context_os_mcp.Query.Expression.{evaluate_expression}

abbrev pub malformed : {A : Type 0} → Text → Text → Result QueryFault A
malformed path violation = err (refused (malformed_definition path violation))

-- `format!("{path}.{operator}[{index}]")`
abbrev pub operand_path : Text → Text → ℕ → Text
operand_path path operator index =
    path ++ (codes "." ++ (operator ++ (codes "[" ++ (decimal index ++ codes "]"))))

-- The operator of a filter object.
pub data Operator : Type 0 where
  all_of any_of not_all_of : Operator

abbrev pub operator_of : Text → Option Operator
operator_of name =
    if name == codes "and"
    then some all_of
    else if name == codes "or"
    then some any_of
    else if name == codes "not"
    then some not_all_of
    else none

abbrev pub start : Operator → Bool
start any_of = false
start _ = true

abbrev pub combine : Operator → Bool → Bool → Bool
combine any_of result v = result || v
combine _ result v = result && v

abbrev pub finish : Operator → Bool → Bool
finish not_all_of result = not result
finish _ result = result

abbrev pub operands :
    Text → Option Operator → (Operator → Result QueryFault Bool) → Text → Result QueryFault Bool
operands name (some operator) evaluate path = evaluate operator
operands name none evaluate path =
    malformed path (codes "filter object key must be and, or, or not, found " ++ name)

abbrev pub not_array : Text → Text → Result QueryFault Bool
not_array name path =
    malformed (path ++ (codes "." ++ name)) (codes "filter operands must be an array")

abbrev pub not_node : Text → Result QueryFault Bool
not_node path = malformed path (codes "filter node must be a string or an and/or/not object")

module _ (parse_f64 : Text → Option ℕ) (row : RowContext) where
  unfoldable mutual
    -- `evaluate_node`
    pub evaluate_node : Value → Text → Result QueryFault Bool
    evaluate_node (string expr) path = evaluate_expression parse_f64 row path expr
    evaluate_node (object (member name (array items) _)) path =
        operands name (operator_of name)
          (λ operator. evaluate_operands items operator name path 0 (start operator)) path
    evaluate_node (object (member name _ _)) path = not_array name path
    evaluate_node (object no_members) path =
        malformed path (codes "filter object must contain and, or, or not")
    evaluate_node _ path = not_node path

    -- The loop over the operands, with the result so far.
    pub evaluate_operands : Values → Operator → Text → Text → ℕ → Bool → Result QueryFault Bool
    evaluate_operands no_values operator name path index result = ok (finish operator result)
    evaluate_operands (value operand items) operator name path index result =
        evaluate_node operand (operand_path path name index) >>= λ v.
        evaluate_operands items operator name path (index + 1) (combine operator result v)

  -- `evaluate_filters`
  unfoldable pub evaluate_filters : Option Value → Result QueryFault Bool
  evaluate_filters none = ok true
  evaluate_filters (some filters) = evaluate_node filters (codes "filters")
