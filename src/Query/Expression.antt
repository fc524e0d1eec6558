-- ===== src/Query/Expression.antt =====
-- Filter expressions (crates/contextos-obsidian/src/base_query.rs): `scan_leaf` and the evaluating
-- parser. The cursor is the text that is left; it only stops at ASCII characters, so characters may
-- stand for bytes. The depth of parentheses in a leaf does not reach 2^32.
use context_os_mcp.Prelude.{
  Bool, Option, Result, Text, [], codes, err, false, if◌then◌else◌, length, list_eq, map_err,
  nat_eq, none, not, ok, option_eq, some, strip_prefix, suc, trim, trim_start_matches, zero, ℕ,
  ◌&&◌, ◌*◌, ◌+◌, ◌-◌, ◌==◌, ◌>>=◌, ◌||◌, ◌∷◌,
}
use context_os_mcp.Query.Value.{
  RowContext, QueryFault, refused, out_of_fuel, unsupported_filter_expression,
}
use context_os_mcp.Query.Leaf.{is_quote, evaluate_leaf}

-- `skip_whitespace`, and `starts_with` of a token behind it
abbrev pub is_ascii_whitespace : ℕ → Bool
is_ascii_whitespace c = c == 9 || c == 10 || c == 12 || c == 13 || c == 32

unfoldable pub skip : Text → Text
skip s = trim_start_matches is_ascii_whitespace s

abbrev pub token : Text → Text → Option Text
token sign s = strip_prefix sign (skip s)

-- A `!` that does not begin `!=`
abbrev pub no_equals : Option Text → Option Text
no_equals none = none
no_equals (some []) = some []
no_equals (some (c ∷ cs)) = if c == b'=' then none else some (c ∷ cs)

abbrev pub negation : Text → Option Text
negation s = no_equals (token (codes "!") s)

-- What follows a token, or what is done without it.
unfoldable pub on_token {ℓ} : {A : Type ℓ} → Option Text → (Text → A) → (Unit {0} → A) → A
on_token (some rest) found missing = found rest
on_token none found missing = missing tt

-- The state of `scan_leaf`: the depth of parentheses, and the quote that is open.
abbrev pub LeafState : Type 0
LeafState = ℕ × Option ℕ

abbrev pub is_doubled : ℕ → Text → Bool
is_doubled c [] = false
is_doubled c (d ∷ cs) = d == c

abbrev pub outside : ℕ → ℕ → Text → Option LeafState
outside depth c cs =
    if is_quote c
    then some (depth, some c)
    else if c == b'('
    then some (depth + 1, none)
    else if c == b')'
    then (if depth == 0 then none else some (depth - 1, none))
    else if (c == b'&' || c == b'|') && depth == 0 && is_doubled c cs
    then none
    else some (depth, none)

-- One round of its loop: the state behind a character, or the end of the leaf before it.
unfoldable pub leaf_step : LeafState → ℕ → Text → Option LeafState
leaf_step (depth, some quote) c cs = some (depth, if c == quote then none else some quote)
leaf_step (depth, none) c cs = outside depth c cs

abbrev pub add_front : ℕ → Text × Text → Text × Text
add_front c (leaf, rest) = (c ∷ leaf, rest)

-- The loop of `scan_leaf`: the leaf and what follows it.
unfoldable pub scan_from : LeafState → Text → Text × Text
scan_from state [] = ([], [])
scan_from state (c ∷ cs) = elim (leaf_step state c cs) [
  | some next ↦ add_front c (scan_from next cs)
  | none ↦ ([], c ∷ cs)
]

-- `scan_leaf`
unfoldable pub scan_leaf : Text → Text × Text
scan_leaf s = scan_from (0, none) s

module _ (parse_f64 : Text → Option ℕ) (row : RowContext) (path text : Text) where
  abbrev pub Parsed : Type 0
  Parsed = Result QueryFault (Bool × Text)

  abbrev pub unsupported : {A : Type 0} → Result QueryFault A
  unsupported = err (refused (unsupported_filter_expression path (trim text)))

  abbrev pub closed : Bool → Option Text → Parsed
  closed result (some rest) = ok (result, rest)
  closed result none = unsupported

  -- The leaf branch of `parse_primary`
  abbrev pub parse_leaf : Text × Text → Parsed
  parse_leaf (leaf, rest) =
      map_err refused (evaluate_leaf parse_f64 row path (trim leaf)) >>= λ result. ok (result, rest)

  -- Each call and each round of a loop takes a unit of fuel.
  unfoldable mutual
    -- `parse_or`
    pub parse_or : ℕ → Text → Parsed
    parse_or zero s = err out_of_fuel
    parse_or (suc f) s = parse_and f s >>= λ (result, rest). or_loop f result rest

    pub or_loop : ℕ → Bool → Text → Parsed
    or_loop zero result s = err out_of_fuel
    or_loop (suc f) result s =
        on_token (token (codes "||") s)
          (λ t. parse_and f t >>= λ (rhs, rest). or_loop f (result || rhs) rest)
          (λ _. ok (result, skip s))

    -- `parse_and`
    pub parse_and : ℕ → Text → Parsed
    parse_and zero s = err out_of_fuel
    parse_and (suc f) s = parse_not f s >>= λ (result, rest). and_loop f result rest

    pub and_loop : ℕ → Bool → Text → Parsed
    and_loop zero result s = err out_of_fuel
    and_loop (suc f) result s =
        on_token (token (codes "&&") s)
          (λ t. parse_not f t >>= λ (rhs, rest). and_loop f (result && rhs) rest)
          (λ _. ok (result, skip s))

    -- `parse_not`
    pub parse_not : ℕ → Text → Parsed
    parse_not zero s = err out_of_fuel
    parse_not (suc f) s =
        on_token (negation s) (λ t. parse_not f t >>= λ (result, rest). ok (not result, rest))
          (λ _. parse_primary f s)

    -- `parse_primary`
    pub parse_primary : ℕ → Text → Parsed
    parse_primary zero s = err out_of_fuel
    parse_primary (suc f) s =
        on_token (token (codes "(") s)
          (λ t. parse_or f t >>= λ (result, rest). closed result (token (codes ")") rest))
          (λ _. parse_leaf (scan_leaf (skip s)))

  abbrev pub at_end : Bool → Text → Result QueryFault Bool
  at_end result [] = ok result
  at_end result (_ ∷ _) = unsupported

-- The fuel for a text
abbrev pub fuel_for : Text → ℕ
fuel_for s = 5 * length s + 5

-- `evaluate_expression`
unfoldable pub evaluate_expression :
    (Text → Option ℕ) → RowContext → Text → Text → Result QueryFault Bool
evaluate_expression parse_f64 row path expr =
    parse_or parse_f64 row path expr (fuel_for expr) expr >>= λ (result, rest).
    at_end parse_f64 row path expr result (skip rest)
