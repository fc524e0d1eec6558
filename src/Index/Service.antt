-- ===== src/Index/Service.antt =====
-- `IndexService` (crates/contextos-index/src/lib.rs): its configuration and errors, the exclusions,
-- its paths, and the directories that an event affects. `R`, `E` and `F` are the errors of the
-- reader, of the writer and of the frontmatter, `T` is the time. The reader and the writer are ports
-- over a world `W` (crates/contextos-core/src/vault.rs).
pub mod Extends
pub mod Affected
pub mod Sources
pub mod Reached
pub mod Reconcile
pub mod Rebuild
use context_os_mcp.Prelude.{
  bool_beq, Bool, List, Option, Result, Text, [], any, codes, err, false, if◌then◌else◌, list_eq,
  map_err, nat_eq, none, not, ok, option_eq, position, reverse, some, starts_with, ℕ, ◌&&◌, ◌++◌,
  ◌+◌, ◌-◌, ◌/◌, ◌==◌, ◌>>=◌, ◌>>◌, ◌||◌, ◌∷◌,
}
use context_os_mcp.Exec.{Exec, Act}
use context_os_mcp.FilePath.{FilePath, component_eq, components, join, root_dir}
use context_os_mcp.Hash.{ContentHash, hash_eq}
use context_os_mcp.Host.{Host}
use context_os_mcp.Operation.{
  OperationEvent, OperationWarning, WriteMutation, WriteOutcome, MoveMutation, MoveOutcome,
  path_text,
}
use context_os_mcp.Pipeline.{PipelineResult}
use context_os_mcp.Vault.Error.{PathError}
use context_os_mcp.Vault.Root.{VaultRoot, VaultRootId, id_try_from}
use context_os_mcp.Vault.Set.{VaultSet}
use context_os_mcp.Vault.Confine
use context_os_mcp.Vault.Confine.{VaultPath, Fault, refused, panicked}
use context_os_mcp.Index.Block.{IndexError}

-- `VaultText`, `VaultEntryKind` and `VaultEntry`
pub record VaultText : Type 0 where
  pub content : Text
  pub content_hash : ContentHash

pub data VaultEntryKind : Type 0 where
  file directory : VaultEntryKind

pub record VaultEntry : Type 0 where
  pub name : Text
  pub kind : VaultEntryKind

pub data IndexServiceError (R E F : Type 0) : Type 0 where
  read_failed : R → IndexServiceError R E F
  write_failed : E → IndexServiceError R E F
  path_invalid : PathError → IndexServiceError R E F
  non_utf8_path legacy_index_conflict : FilePath → IndexServiceError R E F
  root_not_configured wrong_root : IndexServiceError R E F
  index_failed : IndexError → IndexServiceError R E F
  -- `IndexError::Frontmatter`
  frontmatter_invalid : FilePath → F → IndexServiceError R E F
  -- a panic of path validation, which never happens
  crashed : IndexServiceError R E F

-- `IndexError::code` and `IndexServiceError::code`
abbrev pub index_code : IndexError → Text
index_code _ = codes "index/stale"

unfoldable pub code : {R E F : Type 0} → (F → Text) → IndexServiceError R E F → Text
code frontmatter_code (index_failed e) = index_code e
code frontmatter_code (frontmatter_invalid _ source) = frontmatter_code source
code frontmatter_code (legacy_index_conflict _) = codes "index/legacy-conflict"
code frontmatter_code root_not_configured = codes "index/root"
code frontmatter_code wrong_root = codes "index/root"
code frontmatter_code _ = codes "index/reconcile"

-- `OperationWarning::from(IndexServiceError)`
unfoldable pub warning_from :
    {R E F : Type 0}
    → (F → Text)
    → (IndexServiceError R E F → Text)
    → IndexServiceError R E F
    → OperationWarning
warning_from frontmatter_code to_string value = record {
  code = code frontmatter_code value;
  message = to_string value;
}

pub record IndexService (W R E T : Type 0) : Type 0 where
  pub root : VaultRoot
  pub root_id : VaultRootId
  pub roots : VaultSet
  pub excluded : List Text
  -- the reader: `ReadsVault` and `ListsVault`
  pub read_optional_text : VaultPath → Exec W R (Option VaultText)
  pub list : VaultPath → Exec W R (List VaultEntry)
  -- the writer: `WritesVault` and `MovesVault`
  pub persist : WriteMutation → Exec W E (PipelineResult T WriteOutcome)
  pub move_path : MoveMutation → Exec W E (PipelineResult T MoveOutcome)

abbrev pub root_beq : VaultRoot → VaultRoot → Bool
root_beq a b = a.resolved == b.resolved && bool_beq a.managed b.managed && a.name == b.name

abbrev pub path_beq : VaultPath → VaultPath → Bool
path_beq a b = a.root.value == b.root.value && a.relative == b.relative && a.absolute == b.absolute

-- `IndexService::try_from`: a configuration is a service whose identifier does not count yet.
abbrev pub root_id_at : {R E F : Type 0} → Option ℕ → Result (IndexServiceError R E F) VaultRootId
root_id_at none = err root_not_configured
root_id_at (some index) = map_err path_invalid (id_try_from index)

unfoldable pub try_from :
    {W R E T F : Type 0}
    → IndexService W R E T
    → Result (IndexServiceError R E F) (IndexService W R E T)
unfolding ◌>>=◌
try_from value = do
  root_id ← root_id_at (position (λ candidate. root_beq candidate value.root) value.roots.roots)
  ok (record value { root_id = root_id })

module _ {W R E T : Type 0} (s : IndexService W R E T) where
  abbrev pub is_below : FilePath → Text → Bool
  is_below relative excluded =
      relative == components excluded || starts_with relative (components excluded)

  -- `IndexService::is_excluded`
  unfoldable pub is_excluded : FilePath → Bool
  is_excluded relative = any (is_below relative) s.excluded

  -- `IndexService::includes`
  unfoldable pub includes : VaultPath → VaultEntry → Bool
  includes base entry =
      if starts_with entry.name (codes ".")
        || entry.name == codes "index.md"
        || entry.name == codes "_index.md"
      then false
      else not (any (is_below (join base.relative (components entry.name))) s.excluded)

  -- `IndexService::manages_directory`
  unfoldable pub manages_directory : VaultPath → Bool
  manages_directory base = base.root.value == s.root_id.value && not (is_excluded base.relative)

  abbrev pub push_directory : List VaultPath → VaultPath → List VaultPath
  push_directory directories parent =
      if not (is_excluded parent.relative) && not (any (λ d. path_beq d parent) directories)
      then directories ++ parent ∷ []
      else directories

  abbrev pub push_itself : Host → VaultPath → List VaultPath → List VaultPath
  push_itself host path directories =
      if host.is_dir path.absolute && not (is_excluded path.relative)
      then directories ++ path ∷ []
      else directories

  module _ {F : Type 0} where
    abbrev pub to_error : {A : Type 0} → Result Fault A → Result (IndexServiceError R E F) A
    to_error (ok a) = ok a
    to_error (err (refused source)) = err (path_invalid source)
    to_error (err panicked) = err crashed

    -- `IndexService::path_from_relative`; the text of a path is always valid here.
    unfoldable pub path_from_relative : Host → FilePath → Result (IndexServiceError R E F) VaultPath
    path_from_relative host relative =
        to_error (Confine.try_from host s.roots (path_text (join s.root.resolved relative)))

    -- `IndexService::child_path`
    unfoldable pub child_path : Host → VaultPath → Text → Result (IndexServiceError R E F) VaultPath
    child_path host base name = path_from_relative host (join base.relative (components name))

    -- The ancestors of a path, which is given from its last component on.
    unfoldable pub push_ancestors :
        Host → FilePath → List VaultPath → Result (IndexServiceError R E F) (List VaultPath)
    unfolding ◌>>=◌
    push_ancestors host [] directories = ok directories
    push_ancestors host (root_dir ∷ _) directories = ok directories
    push_ancestors host (_ ∷ up) directories = do
      parent ← path_from_relative host (reverse up)
      push_ancestors host up (push_directory directories parent)

    abbrev pub push_path :
        Host → VaultPath → List VaultPath → Result (IndexServiceError R E F) (List VaultPath)
    push_path host path directories =
        if path.root.value == s.root_id.value
        then push_ancestors host (reverse path.relative) (push_itself host path directories)
        else ok directories

    -- The first loop of `reconcile_event`: the directories to reconcile.
    unfoldable pub affected :
        Host → List VaultPath → List VaultPath → Result (IndexServiceError R E F) (List VaultPath)
    unfolding ◌>>=◌
    affected host [] directories = ok directories
    affected host (path ∷ paths) directories =
        push_path host path directories >>= affected host paths
