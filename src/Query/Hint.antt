-- ===== src/Query/Hint.antt =====
-- Where a scan for matches may start (crates/contextos-obsidian/src/base_query.rs): `scan_root_hint`
-- and the walk of an expression behind it; `candidate_directory` and the narrowing of `run`
-- (crates/contextos-mcp/src/tools/base_query.rs). A walk is nothing when its fuel is out.
pub mod Quoted
pub mod Leaves
pub mod Sound
pub mod Narrow
pub mod Below
use context_os_mcp.Prelude.{
  Bool, List, Option, Text, [], all, codes, false, if◌then◌else◌, list_eq, nat_eq, none, option_eq,
  reverse, some, strip_prefix, suc, trim, zero, ℕ, ◌++◌, ◌==◌, ◌∷◌,
}
use context_os_mcp.Vault.Confine.{split_once}
use context_os_mcp.Index.Block.{strip_suffix}
use context_os_mcp.Query.Value.{Value, string, array, object, Values, no_values, value, member}
use context_os_mcp.Query.Leaf.{ComparisonOp, equal, parse_quoted, parse_comparison}
use context_os_mcp.Query.Expression.{skip, token, negation, on_token, scan_leaf, fuel_for}

pub data ScanRootHint : Type 0 where
  folder path : Text → ScanRootHint

abbrev pub hint_beq : ScanRootHint → ScanRootHint → Bool
hint_beq (folder a) (folder b) = a == b
hint_beq (path a) (path b) = a == b
hint_beq _ _ = false

abbrev pub Hint : Type 0
Hint = Option ScanRootHint

abbrev pub is_hint : ScanRootHint → Hint → Bool
is_hint hint none = false
is_hint hint (some other) = hint_beq other hint

abbrev pub agreed : Hint → List Hint → Hint
agreed none hints = none
agreed (some first) hints = if all (is_hint first) hints then some first else none

-- `merge_or_hints`
unfoldable pub merge_or_hints : List Hint → Hint
merge_or_hints [] = none
merge_or_hints (first ∷ hints) = agreed first hints

-- `Option::or`
abbrev pub or_hint : Hint → Hint → Hint
or_hint none rhs = rhs
or_hint (some hint) rhs = some hint

abbrev pub as_folder : Option Text → Hint
as_folder none = none
as_folder (some name) = some (folder name)

abbrev pub as_path : Option Text → Hint
as_path none = none
as_path (some name) = some (path name)

abbrev pub comparison_hint : Option (Text × ComparisonOp × Text) → Hint
comparison_hint (some (property, equal, rhs)) =
    if property == codes "file.path"
    then as_path (parse_quoted rhs)
    else if property == codes "file.folder"
    then as_folder (parse_quoted rhs)
    else none
comparison_hint _ = none

-- The text between the parentheses of `file.inFolder(...)`
abbrev pub folder_call : Option Text → Option Text
folder_call none = none
folder_call (some rest) = strip_suffix (codes ")") rest

abbrev pub call_hint : Option Text → Text → Hint
call_hint (some inner) trimmed = as_folder (parse_quoted (trim inner))
call_hint none trimmed = comparison_hint (parse_comparison trimmed)

-- `leaf_scan_hint`
unfoldable pub leaf_scan_hint : Text → Hint
leaf_scan_hint expr =
    call_hint (folder_call (strip_prefix (codes "file.inFolder(") (trim expr))) (trim expr)

abbrev pub Walk : Type 0
Walk = Option (Hint × Text)

abbrev pub continue : Walk → (Hint × Text → Walk) → Walk
continue none k = none
continue (some w) k = k w

-- At a missing parenthesis, no hint.
abbrev pub closed_hint : Hint → Text → Option Text → Walk
closed_hint hint rest (some behind) = some (hint, behind)
closed_hint hint rest none = some (none, skip rest)

abbrev pub leaf_walk : Text × Text → Walk
leaf_walk (leaf, rest) = some (leaf_scan_hint (trim leaf), rest)

unfoldable mutual
  -- `hint_or`
  pub hint_or : ℕ → Text → Walk
  hint_or zero s = none
  hint_or (suc f) s = continue (hint_and f s) λ (hint, rest). hint_or_loop f (hint ∷ []) rest

  pub hint_or_loop : ℕ → List Hint → Text → Walk
  hint_or_loop zero hints s = none
  hint_or_loop (suc f) hints s =
      on_token (token (codes "||") s)
        (λ t. continue (hint_and f t) λ (hint, rest). hint_or_loop f (hints ++ hint ∷ []) rest)
        (λ _. some (merge_or_hints hints, skip s))

  -- `hint_and`
  pub hint_and : ℕ → Text → Walk
  hint_and zero s = none
  hint_and (suc f) s = continue (hint_not f s) λ (hint, rest). hint_and_loop f hint rest

  pub hint_and_loop : ℕ → Hint → Text → Walk
  hint_and_loop zero hint s = none
  hint_and_loop (suc f) hint s =
      on_token (token (codes "&&") s)
        (λ t. continue (hint_not f t) λ (rhs, rest). hint_and_loop f (or_hint hint rhs) rest)
        (λ _. some (hint, skip s))

  -- `hint_not`
  pub hint_not : ℕ → Text → Walk
  hint_not zero s = none
  hint_not (suc f) s =
      on_token (negation s) (λ t. continue (hint_not f t) λ (_, rest). some (none, rest))
        (λ _. hint_primary f s)

  -- `hint_primary`
  pub hint_primary : ℕ → Text → Walk
  hint_primary zero s = none
  hint_primary (suc f) s =
      on_token (token (codes "(") s)
        (λ t. continue (hint_or f t) λ (hint, rest). closed_hint hint rest (token (codes ")") rest))
        (λ _. leaf_walk (scan_leaf (skip s)))

abbrev pub hint_at_end : Hint → Text → Hint
hint_at_end hint [] = hint
hint_at_end hint (_ ∷ _) = none

abbrev pub walked : Walk → Hint
walked none = none
walked (some (hint, rest)) = hint_at_end hint (skip rest)

-- `expression_scan_hint`
unfoldable pub expression_scan_hint : Text → Hint
expression_scan_hint expr = walked (hint_or (fuel_for expr) expr)

-- `find_map`
abbrev pub first_hint : List Hint → Hint
first_hint [] = none
first_hint (hint ∷ hints) = or_hint hint (first_hint hints)

abbrev pub merged : Text → List Hint → Hint
merged name hints =
    if name == codes "and"
    then first_hint hints
    else if name == codes "or"
    then merge_or_hints hints
    else none

unfoldable mutual
  -- `scan_root_hint` of a filter
  pub node_hint : Value → Hint
  node_hint (string expr) = expression_scan_hint expr
  node_hint (object (member name (array items) _)) = merged name (operand_hints items)
  node_hint _ = none

  pub operand_hints : Values → List Hint
  operand_hints no_values = []
  operand_hints (value operand items) = node_hint operand ∷ operand_hints items

-- `scan_root_hint`
unfoldable pub scan_root_hint : Option Value → Hint
scan_root_hint none = none
scan_root_hint (some filters) = node_hint filters

-- A directory that is not the root.
abbrev pub non_empty : Text → Option Text
non_empty [] = none
non_empty (c ∷ cs) = some (c ∷ cs)

-- `rsplit_once('/')`, of which the part before the last slash
abbrev pub behind_slash : Option (Text × Text) → Option Text
behind_slash none = none
behind_slash (some (_, before)) = non_empty (reverse before)

abbrev pub parent_or : Text → Option Text → Option Text
parent_or hint (some stripped) = non_empty stripped
parent_or hint none = behind_slash (split_once (codes "/") (reverse hint))

-- `candidate_directory`
unfoldable pub candidate_directory : Text → Option Text
candidate_directory hint = parent_or hint (strip_suffix (codes "/") hint)

-- The directory of a hint, in `run`
unfoldable pub narrowed : Hint → Option Text
narrowed none = none
narrowed (some (path p)) = candidate_directory p
narrowed (some (folder name)) = non_empty name
