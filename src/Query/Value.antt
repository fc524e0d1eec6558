-- ===== src/Query/Value.antt =====
-- JSON values (`serde_json::Value`), and the rows and errors of a query
-- (crates/contextos-obsidian/src/base_query.rs). The members of an object stand in the order of the
-- map (`preserve_order`), each key once.
use context_os_mcp.Prelude.{
  ◌+◌, bool_beq, Bool, List, Option, Text, [], codes, false, if◌then◌else◌, list_eq, nat_eq, none,
  option_eq, some, true, ℕ, ◌&&◌, ◌==◌, ◌^◌, ◌||◌, ◌∷◌,
}

-- `serde_json::Number`: an unsigned integer, a negative one by its magnitude, a float by its bits
pub data Number : Type 0 where
  pos_int neg_int float : ℕ → Number

mutual
  pub data Value : Type 0 where
    null : Value
    bool : Bool → Value
    number : Number → Value
    string : Text → Value
    array : Values → Value
    object : Members → Value

  pub data Values : Type 0 where
    no_values : Values
    value : Value → Values → Values

  pub data Members : Type 0 where
    no_members : Members
    member : Text → Value → Members → Members

-- `Map::get`
abbrev pub get : Text → Members → Option Value
get key no_members = none
get key (member k v members) = let rest = get key members in if key == k then some v else rest

abbrev pub has : Text → Members → Bool
has key no_members = false
has key (member k v members) = key == k || has key members

abbrev pub or_null : Option Value → Value
or_null none = null
or_null (some v) = v

abbrev pub count : Members → ℕ
count no_members = 0
count (member k v members) = count members + 1

-- `PartialEq`: the two zeros among the floats are equal.
abbrev pub is_zero : ℕ → Bool
is_zero bits = bits == 0 || bits == 2 ^ 63

abbrev pub number_beq : Number → Number → Bool
number_beq (pos_int m) (pos_int n) = m == n
number_beq (neg_int m) (neg_int n) = m == n
number_beq (float m) (float n) = m == n || (is_zero m && is_zero n)
number_beq _ _ = false

unfoldable mutual
  pub value_beq : Value → Value → Bool
  value_beq null null = true
  value_beq (bool a) (bool b) = bool_beq a b
  value_beq (number a) (number b) = number_beq a b
  value_beq (string a) (string b) = a == b
  value_beq (array a) (array b) = values_beq a b
  value_beq (object a) (object b) = count a == count b && members_in a b
  value_beq _ _ = false

  pub values_beq : Values → Values → Bool
  values_beq no_values no_values = true
  values_beq (value a more) (value b rest) = value_beq a b && values_beq more rest
  values_beq _ _ = false

  -- Every member is found in the other map, whatever its place.
  pub members_in : Members → Members → Bool
  members_in no_members other = true
  members_in (member k v more) other =
      has k other && value_beq v (or_null (get k other)) && members_in more other

-- `string_list`
abbrev pub strings_of : List Text → Values
strings_of [] = no_values
strings_of (item ∷ items) = value (string item) (strings_of items)

abbrev pub string_list : List Text → Value
string_list items = array (strings_of items)

pub record FileMetadata : Type 0 where
  pub name : Text
  pub basename : Text
  pub path : Text
  pub ext : Text
  pub folder : Text
  pub size : ℕ
  pub ctime : Option Text
  pub mtime : Option Text

pub record RowContext : Type 0 where
  pub frontmatter : Members
  pub file : FileMetadata
  pub tags : List Text
  pub links : List Text
  pub embeds : List Text
  pub backlinks : List Text

-- The texts of an error are those of its fields; a path first.
pub data BaseQueryError : Type 0 where
  view_not_found no_columns : Text → BaseQueryError
  malformed_definition unsupported_filter_expression formula_reference unsupported_file_property :
      Text → Text → BaseQueryError

-- `BaseQueryError::code`
unfoldable pub code : BaseQueryError → Text
code (view_not_found _) = codes "query/base-view-not-found"
code (no_columns _) = codes "query/base-query-no-columns"
code (malformed_definition _ _) = codes "query/base-query-malformed"
code (unsupported_filter_expression _ _) = codes "query/base-query-unsupported-filter"
code (formula_reference _ _) = codes "query/base-query-formula-reference"
code (unsupported_file_property _ _) = codes "query/base-query-unsupported-file-property"

-- An error, or the end of the fuel.
pub data QueryFault : Type 0 where
  refused : BaseQueryError → QueryFault
  out_of_fuel : QueryFault
