-- ===== src/Vault/Error.antt =====
-- `PathError` of crates/contextos-core/src/path.rs. The `io::Error` that some variants carry as
-- their source is not modelled.
use context_os_mcp.Prelude.{ℕ, Option, none, some, Text, codes}
use context_os_mcp.FilePath.{FilePath}

pub data PathError : Type 0 where
  no_roots : PathError
  too_many_roots : ℕ → PathError
  duplicate_root : FilePath → PathError
  invalid_name : FilePath → Text → PathError
  duplicate_name : Text → PathError
  root_resolution : FilePath → PathError
  root_not_directory : FilePath → PathError
  non_utf8 : FilePath → PathError
  invalid : FilePath → PathError
  empty_named_prefix_remainder : Text → PathError
  traversal : FilePath → PathError
  ambiguous_root : FilePath → PathError
  unknown_vault_name : Text → PathError
  outside_root : FilePath → PathError
  symlink_escape : FilePath → PathError
  windows_verbatim : FilePath → PathError
  alternate_data_stream : FilePath → PathError
  unsupported_windows_path : FilePath → PathError
  path_inspection : FilePath → PathError
  path_resolution : FilePath → PathError
  prefix_mismatch : FilePath → PathError

-- `PathError::path`
unfoldable pub path : PathError → Option FilePath
path no_roots = none
path (too_many_roots _) = none
path (duplicate_name _) = none
path (unknown_vault_name _) = none
path (empty_named_prefix_remainder _) = none
path (duplicate_root p) = some p
path (invalid_name p _) = some p
path (root_resolution p) = some p
path (root_not_directory p) = some p
path (non_utf8 p) = some p
path (invalid p) = some p
path (traversal p) = some p
path (ambiguous_root p) = some p
path (outside_root p) = some p
path (symlink_escape p) = some p
path (windows_verbatim p) = some p
path (alternate_data_stream p) = some p
path (unsupported_windows_path p) = some p
path (path_inspection p) = some p
path (path_resolution p) = some p
path (prefix_mismatch p) = some p

-- `PathError::code`
unfoldable pub code : PathError → Text
code (traversal _) = codes "path/outside-root"
code (outside_root _) = codes "path/outside-root"
code (symlink_escape _) = codes "path/symlink-escape"
code (ambiguous_root _) = codes "path/ambiguous-root"
code (unknown_vault_name _) = codes "path/unknown-vault-name"
code (empty_named_prefix_remainder _) = codes "path/empty-named-prefix"
code (invalid_name _ _) = codes "path/invalid-vault-name"
code (duplicate_name _) = codes "path/duplicate-vault-name"
code (windows_verbatim _) = codes "path/invalid-windows-path"
code (alternate_data_stream _) = codes "path/invalid-windows-path"
code (unsupported_windows_path _) = codes "path/invalid-windows-path"
code (root_resolution _) = codes "path/invalid-root"
code (root_not_directory _) = codes "path/invalid-root"
code no_roots = codes "path/invalid-root"
code (too_many_roots _) = codes "path/invalid-root"
code (duplicate_root _) = codes "path/invalid-root"
code (non_utf8 _) = codes "path/invalid"
code (invalid _) = codes "path/invalid"
code (path_inspection _) = codes "path/invalid"
code (path_resolution _) = codes "path/invalid"
code (prefix_mismatch _) = codes "path/invalid"
