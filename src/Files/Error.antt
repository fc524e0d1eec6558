-- ===== src/Files/Error.antt =====
-- `FsError` (crates/contextos-fs/src/error.rs), without the sources of its errors.
use context_os_mcp.Prelude.{[], codes, Option, Text, none, some, ℕ}
use context_os_mcp.FilePath.{FilePath}
use context_os_mcp.Vault.Error.{PathError, code}
use context_os_mcp.Hash.{ContentHash}

pub data FsError : Type 0 where
  outside_root not_directory not_found not_file binary : FilePath → FsError
  path_validation : FilePath → PathError → FsError
  too_large : FilePath → ℕ → ℕ → FsError
  -- with the hash on disk, when there was one to read
  conflict : FilePath → Option ContentHash → FsError
  expected_hash_required : FilePath → ContentHash → FsError
  destination_exists edit_not_found edit_ambiguous : FilePath → FsError
  batch_too_large : ℕ → ℕ → FsError
  limit_count_mismatch hidden_count_mismatch : ℕ → ℕ → FsError
  invalid_limits : ℕ → FsError
  invalid_range : ℕ → ℕ → FsError
  invalid_glob invalid_exclude : Text → FsError
  read_directory read_directory_entry walk_directory prefix_mismatch : FilePath → FsError
  read_metadata open_read read_content : FilePath → FsError
  create_parent create_temporary write_temporary flush_temporary : FilePath → FsError
  atomic_write_interrupted persist_temporary create_directory : FilePath → FsError
  move_path : FilePath → FilePath → FsError
  directory_not_empty trash_path delete_path : FilePath → FsError
  open_append append_content flush_append : FilePath → FsError
  -- a panic of path validation, which never happens
  crashed : FsError

-- `FsError::current_hash`
unfoldable pub current_hash : FsError → Option ContentHash
current_hash (conflict _ hash) = hash
current_hash (expected_hash_required _ hash) = some hash
current_hash _ = none

-- `FsError::path`
unfoldable pub fs_error_path : FsError → Option FilePath
fs_error_path (batch_too_large _ _) = none
fs_error_path (limit_count_mismatch _ _) = none
fs_error_path (invalid_limits _) = none
fs_error_path (hidden_count_mismatch _ _) = none
fs_error_path (invalid_range _ _) = none
fs_error_path (invalid_glob _) = none
fs_error_path (invalid_exclude _) = none
fs_error_path (outside_root p) = some p
fs_error_path (not_directory p) = some p
fs_error_path (path_validation p _) = some p
fs_error_path (not_found p) = some p
fs_error_path (not_file p) = some p
fs_error_path (too_large p _ _) = some p
fs_error_path (binary p) = some p
fs_error_path (conflict p _) = some p
fs_error_path (expected_hash_required p _) = some p
fs_error_path (destination_exists p) = some p
fs_error_path (edit_not_found p) = some p
fs_error_path (edit_ambiguous p) = some p
fs_error_path (read_directory p) = some p
fs_error_path (read_directory_entry p) = some p
fs_error_path (walk_directory p) = some p
fs_error_path (prefix_mismatch p) = some p
fs_error_path (read_metadata p) = some p
fs_error_path (open_read p) = some p
fs_error_path (read_content p) = some p
fs_error_path (create_parent p) = some p
fs_error_path (create_temporary p) = some p
fs_error_path (write_temporary p) = some p
fs_error_path (flush_temporary p) = some p
fs_error_path (atomic_write_interrupted p) = some p
fs_error_path (persist_temporary p) = some p
fs_error_path (create_directory p) = some p
fs_error_path (directory_not_empty p) = some p
fs_error_path (trash_path p) = some p
fs_error_path (delete_path p) = some p
fs_error_path (open_append p) = some p
fs_error_path (append_content p) = some p
fs_error_path (flush_append p) = some p
fs_error_path (move_path source _) = some source
fs_error_path crashed = none

-- `FsError::code`; a panic has none.
unfoldable pub fs_error_code : FsError → Text
fs_error_code (outside_root _) = codes "path/outside-root"
fs_error_code (path_validation _ source) = code source
fs_error_code (not_found _) = codes "path/not-found"
fs_error_code (conflict _ _) = codes "io/conflict"
fs_error_code (expected_hash_required _ _) = codes "io/expected-hash-required"
fs_error_code (destination_exists _) = codes "io/destination-exists"
fs_error_code (edit_not_found _) = codes "edit/not-found"
fs_error_code (edit_ambiguous _) = codes "edit/ambiguous"
fs_error_code (too_large _ _ _) = codes "io/too-large"
fs_error_code (binary _) = codes "io/binary"
fs_error_code (invalid_range _ _) = codes "io/invalid-range"
fs_error_code (invalid_glob _) = codes "io/invalid-pattern"
fs_error_code (invalid_exclude _) = codes "io/invalid-pattern"
fs_error_code (batch_too_large _ _) = codes "io/batch-too-large"
fs_error_code (atomic_write_interrupted _) = codes "io/atomic-write-interrupted"
fs_error_code (directory_not_empty _) = codes "io/directory-not-empty"
fs_error_code (trash_path _) = codes "io/delete"
fs_error_code (delete_path _) = codes "io/delete"
fs_error_code (limit_count_mismatch _ _) = codes "server/configuration"
fs_error_code (invalid_limits _) = codes "server/configuration"
fs_error_code (hidden_count_mismatch _ _) = codes "server/configuration"
fs_error_code crashed = []
fs_error_code _ = codes "io/filesystem"
