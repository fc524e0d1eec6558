-- ===== src/Files/Edit.antt =====
-- `apply_exact_edit` (crates/contextos-fs/src/mutate.rs): the replacement of a text that occurs once.
pub mod Exact
use context_os_mcp.Prelude.{
  Bool, List, Option, Result, Text, [], err, false, if◌then◌else◌, list_eq, nat_eq, none, not, ok,
  some, true, ◌++◌, ◌==◌, ◌>>=◌, ◌∷◌,
}
use context_os_mcp.FilePath.{FilePath}
use context_os_mcp.Vault.Confine.{VaultPath, split_once}
use context_os_mcp.Files.Error.{FsError, edit_not_found, edit_ambiguous}

pub record TextEdit : Type 0 where
  pub old_text : Text
  pub new_text : Text

abbrev pub is_some : {A : Type 0} → Option A → Bool
is_some (some _) = true
is_some none = false

-- Whether `match_indices` goes on behind its first match. The empty text matches again at the next
-- character.
abbrev pub matches_again : Text → Text → Bool
matches_again pattern after =
    if pattern == [] then not (after == []) else is_some (split_once pattern after)

abbrev pub edited : FilePath → TextEdit → Option (Text × Text) → Result FsError Text
edited path edit none = err (edit_not_found path)
edited path edit (some (before, after)) =
    if matches_again edit.old_text after
    then err (edit_ambiguous path)
    else ok (before ++ (edit.new_text ++ after))

-- `apply_exact_edit`; the new content is returned.
unfoldable pub apply_exact_edit : Text → TextEdit → VaultPath → Result FsError Text
apply_exact_edit content edit path = edited path.absolute edit (split_once edit.old_text content)

-- The loop of `edit_file` over the edits, which stops at the first that fails.
unfoldable pub apply_edits : Text → List TextEdit → VaultPath → Result FsError Text
unfolding ◌>>=◌
apply_edits content [] path = ok content
apply_edits content (edit ∷ edits) path = do
  modified ← apply_exact_edit content edit path
  apply_edits modified edits path
