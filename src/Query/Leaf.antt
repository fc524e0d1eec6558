-- ===== src/Query/Leaf.antt =====
-- The leaves of a filter (crates/contextos-obsidian/src/base_query.rs): their parts, the values of
-- properties, and `evaluate_leaf`. `parse_f64` is `str::parse::<f64>`, which gives a float's bits.
use context_os_mcp.FilePath.{is_slash}
use context_os_mcp.Prelude.{
  Bool, Option, Result, Text, [], codes, contains, err, false, if◌then◌else◌, is_ascii_digit, leb,
  list_eq, ltb, nat_eq, none, not, ok, option_eq, reverse, some, starts_with, strip_prefix, suc,
  trim, trim_end_matches, true, zero, ℕ, ◌%◌, ◌*◌, ◌++◌, ◌+◌, ◌-◌, ◌/◌, ◌==◌, ◌>>=◌, ◌>>◌, ◌^◌,
  ◌||◌, ◌∷◌,
}
use context_os_mcp.Vault.Confine.{split_once}
use context_os_mcp.Index.Block.{strip_suffix}
use context_os_mcp.Index.Document.{contains_text}
use context_os_mcp.Query.Value.{
  or_null, Number, pos_int, neg_int, float, Value, null, bool, number, string, array, object,
  Values, no_values, value, value_beq, get, string_list, RowContext, BaseQueryError,
  unsupported_filter_expression, formula_reference, unsupported_file_property,
}

abbrev pub is_quote : ℕ → Bool
is_quote c = c == b'\'' || c == b'"'

-- What stands before the closing quote, from a text that is turned round.
abbrev pub unquoted : ℕ → Text → Option Text
unquoted quote [] = none
unquoted quote (c ∷ front) = if c == quote then some (reverse front) else none

-- `parse_quoted`
unfoldable pub parse_quoted : Text → Option Text
parse_quoted [] = none
parse_quoted (c ∷ rest) = if is_quote c then unquoted c (reverse rest) else none

pub data ComparisonOp : Type 0 where
  equal not_equal : ComparisonOp

abbrev pub compared :
    ComparisonOp
    → Option (Text × Text)
    → Option (Text × ComparisonOp × Text)
    → Option (Text × ComparisonOp × Text)
compared op (some (lhs, rhs)) later = some (trim lhs, op, trim rhs)
compared op none later = later

-- `parse_comparison`
unfoldable pub parse_comparison : Text → Option (Text × ComparisonOp × Text)
parse_comparison expr =
    compared not_equal (split_once (codes "!=") expr)
      (compared equal (split_once (codes "==") expr) none)

abbrev pub and_quoted : Option Text → Option Text
and_quoted none = none
and_quoted (some inner) = parse_quoted (trim inner)

abbrev pub with_needle : Text → Option Text → Option (Text × Text)
with_needle front none = none
with_needle front (some needle) = some (trim front, needle)

abbrev pub needle_in : Option (Text × Text) → Option (Text × Text)
needle_in none = none
needle_in (some (front, rest)) = with_needle front (and_quoted (strip_suffix (codes ")") rest))

-- `parse_contains`
unfoldable pub parse_contains : Text → Option (Text × Text)
parse_contains expr = needle_in (split_once (codes ".contains(") expr)

-- The quoted argument of a call: `strip_prefix`, `strip_suffix` and `parse_quoted`.
abbrev pub closed_argument : Option Text → Option Text
closed_argument none = none
closed_argument (some rest) = and_quoted (strip_suffix (codes ")") rest)

abbrev pub argument_of : Text → Text → Option Text
argument_of head expr = closed_argument (strip_prefix head expr)

-- `in_folder`
unfoldable pub in_folder : Text → Text → Bool
in_folder candidate folder =
    candidate == trim_end_matches is_slash folder
    || starts_with candidate (trim_end_matches is_slash folder ++ codes "/")

-- `str::parse::<i64>`: a sign, and digits within the bounds
abbrev pub digits_value : Option ℕ → Text → Option ℕ
digits_value none s = none
digits_value (some n) [] = some n
digits_value (some n) (c ∷ cs) =
    digits_value (if is_ascii_digit c then some (n * 10 + (c - b'0')) else none) cs

abbrev pub unsigned : Text → Option ℕ
unsigned [] = none
unsigned (c ∷ cs) = digits_value (some 0) (c ∷ cs)

abbrev pub negative : Option ℕ → Option Number
negative none = none
negative (some zero) = some (pos_int 0)
negative (some (suc n)) = if leb (suc n) (2 ^ 63) then some (neg_int (suc n)) else none

abbrev pub positive : Option ℕ → Option Number
positive none = none
positive (some n) = if ltb n (2 ^ 63) then some (pos_int n) else none

unfoldable pub parse_i64 : Text → Option Number
parse_i64 [] = none
parse_i64 (c ∷ cs) =
    if c == b'-'
    then negative (unsigned cs)
    else if c == b'+'
    then positive (unsigned cs)
    else positive (unsigned (c ∷ cs))

-- `Number::from_f64`, which refuses what is not finite
abbrev pub from_f64 : ℕ → Value
from_f64 bits = if bits / 2 ^ 52 % 2 ^ 11 == 2047 then null else number (float bits)

abbrev pub float_literal : Text → Text → Option ℕ → Result BaseQueryError Value
float_literal text path (some bits) = ok (from_f64 bits)
float_literal text path none = err (unsupported_filter_expression path text)

abbrev pub integer_literal :
    Option Number → Result BaseQueryError Value → Result BaseQueryError Value
integer_literal (some n) later = ok (number n)
integer_literal none later = later

abbrev pub quoted_literal : Option Text → Result BaseQueryError Value → Result BaseQueryError Value
quoted_literal (some quoted) later = ok (string quoted)
quoted_literal none later = later

-- `parse_literal`
unfoldable pub parse_literal : (Text → Option ℕ) → Text → Text → Result BaseQueryError Value
parse_literal parse_f64 text path = quoted_literal (parse_quoted text) (
    if text == codes "true"
    then ok (bool true)
    else if text == codes "false"
    then ok (bool false)
    else if text == codes "null"
    then ok null
    else integer_literal (parse_i64 text) (float_literal text path (parse_f64 text)))

abbrev pub text_or_null : Option Text → Value
text_or_null none = null
text_or_null (some text) = string text

-- The `file.*` properties
unfoldable pub file_property : Text → RowContext → Text → Result BaseQueryError Value
file_property name row path =
    if name == codes "ext"
    then ok (string row.file.ext)
    else if name == codes "name"
    then ok (string row.file.name)
    else if name == codes "basename"
    then ok (string row.file.basename)
    else if name == codes "path"
    then ok (string row.file.path)
    else if name == codes "folder"
    then ok (string row.file.folder)
    else if name == codes "size"
    then ok (number (pos_int row.file.size))
    else if name == codes "ctime"
    then ok (text_or_null row.file.ctime)
    else if name == codes "mtime"
    then ok (text_or_null row.file.mtime)
    else if name == codes "tags"
    then ok (string_list row.tags)
    else if name == codes "links"
    then ok (string_list row.links)
    else if name == codes "embeds"
    then ok (string_list row.embeds)
    else if name == codes "backlinks"
    then ok (string_list row.backlinks)
    else if name == codes "properties"
    then ok (object row.frontmatter)
    else err (unsupported_file_property path name)

-- `validate_property_name`
abbrev pub no_formula : Text → Option Text → Result BaseQueryError (Unit {0})
no_formula path none = ok tt
no_formula path (some name) = err (formula_reference path name)

unfoldable pub validate_property_name : Text → Text → Result BaseQueryError (Unit {0})
validate_property_name property path = no_formula path (strip_prefix (codes "formula.") property)

abbrev pub or_itself : Text → Option Text → Text
or_itself property none = property
or_itself property (some key) = key

abbrev pub present : Result BaseQueryError Value → Result BaseQueryError (Option Value)
present (ok v) = ok (some v)
present (err e) = err e

abbrev pub property_value :
    Option Text → Text → RowContext → Text → Result BaseQueryError (Option Value)
property_value (some name) property row path = present (file_property name row path)
property_value none property row path =
    ok (get (or_itself property (strip_prefix (codes "note.") property)) row.frontmatter)

-- `resolve_property`
unfoldable pub resolve_property : Text → RowContext → Text → Result BaseQueryError (Option Value)
resolve_property property row path =
    validate_property_name property path
    >> property_value (strip_prefix (codes "file.") property) property row path

abbrev pub has_string : Text → Values → Bool
has_string needle no_values = false
has_string needle (value (string text) items) = text == needle || has_string needle items
has_string needle (value _ items) = has_string needle items

abbrev pub holds_needle : Text → Option Value → Bool
holds_needle needle (some (string text)) = contains_text needle text
holds_needle needle (some (array items)) = has_string needle items
holds_needle needle _ = false

abbrev pub compare_by : ComparisonOp → Value → Value → Bool
compare_by equal a b = value_beq a b
compare_by not_equal a b = not (value_beq a b)

module _ (parse_f64 : Text → Option ℕ) (row : RowContext) (path : Text) where
  abbrev pub comparison_leaf :
      Text → Option (Text × ComparisonOp × Text) → Result BaseQueryError Bool
  comparison_leaf trimmed (some (property, op, rhs)) = do
    v ← resolve_property property row path
    literal ← parse_literal parse_f64 rhs path
    ok (compare_by op (or_null v) literal)
  comparison_leaf trimmed none = err (unsupported_filter_expression path trimmed)

  abbrev pub contains_leaf : Text → Option (Text × Text) → Result BaseQueryError Bool
  contains_leaf trimmed (some (property, needle)) = do
    v ← resolve_property property row path
    ok (holds_needle needle v)
  contains_leaf trimmed none = comparison_leaf trimmed (parse_comparison trimmed)

  abbrev pub folder_leaf : Text → Option Text → Result BaseQueryError Bool
  folder_leaf trimmed (some folder) = ok (in_folder row.file.folder folder)
  folder_leaf trimmed none = contains_leaf trimmed (parse_contains trimmed)

  abbrev pub tag_leaf : Text → Option Text → Result BaseQueryError Bool
  tag_leaf trimmed (some tag) = ok (contains tag row.tags)
  tag_leaf trimmed none = folder_leaf trimmed (argument_of (codes "file.inFolder(") trimmed)

  -- `evaluate_leaf`
  unfoldable pub evaluate_leaf : Text → Result BaseQueryError Bool
  evaluate_leaf expr = tag_leaf (trim expr) (argument_of (codes "file.hasTag(") (trim expr))
