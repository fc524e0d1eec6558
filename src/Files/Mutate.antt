-- ===== src/Files/Mutate.antt =====
-- The adapter of the write pipeline: `impl AppliesMutations for Filesystem`, with `revalidate` and
-- `validate_expected_hash` (crates/contextos-fs/src/mutate.rs) and `hash_file` (discover.rs).
use context_os_mcp.Prelude.{
  Bool, List, Option, Result, bytes, err, false, if◌then◌else◌, length, list_eq, nat_eq, none, not,
  ok, some, true, ℕ, ◌&&◌, ◌++◌, ◌==◌,
}
use context_os_mcp.Exec.{Exec, look, attempt, ◌>>=◌, ◌>>◌}
use context_os_mcp.FilePath.{FilePath, component_eq, parent}
use context_os_mcp.Host.{Host}
use context_os_mcp.Vault.Set.{VaultSet}
use context_os_mcp.Vault.Confine.{VaultPath, Fault, refused, panicked, try_from, authorises}
use context_os_mcp.Hash.{ContentHash, from_bytes, hash_eq}
use context_os_mcp.Operation.{
  WriteMutation, WriteOutcome, CreateDirectoryMutation, CreateDirectoryOutcome, MoveMutation,
  MoveOutcome, DeleteMode, trash, hard, hard_recursive, DeleteMutation, DeleteOutcome,
  AppendMutation, AppendOutcome, path_text,
}
use context_os_mcp.Pipeline.{AppliesMutations}
use context_os_mcp.Files.Error
use context_os_mcp.Files.Error.{
  FsError, outside_root, not_directory, not_found, not_file, path_validation, conflict,
  expected_hash_required, destination_exists, read_directory, read_directory_entry, read_metadata,
  open_read, read_content, create_parent, create_temporary, flush_temporary,
  atomic_write_interrupted, persist_temporary, directory_not_empty, trash_path, open_append,
  append_content, flush_append, crashed,
}
use context_os_mcp.Files.Disk.{
  Disk, directory, regular, special, Metadata, of_kind, missing, unreadable, ReadFault, not_opened,
  not_read, FirstEntry, no_entry, some_entry, list_failed, entry_failed,
}

abbrev pub path_beq : VaultPath → VaultPath → Bool
path_beq a b = a.root.value == b.root.value && a.relative == b.relative && a.absolute == b.absolute

abbrev pub refreshed : VaultPath → Result Fault VaultPath → Result FsError FilePath
refreshed path (ok again) =
    if path_beq again path then ok path.absolute else err (conflict path.absolute none)
refreshed path (err (refused e)) = err (path_validation path.absolute e)
refreshed path (err panicked) = err crashed

-- `Filesystem::revalidate`
unfoldable pub revalidate : Host → VaultSet → VaultPath → Result FsError FilePath
revalidate host roots path =
    if authorises roots path
    then refreshed path (try_from host roots (path_text path.absolute))
    else err (outside_root path.absolute)

abbrev pub required {ℓ} : {A : Type ℓ} → Option A → FsError → Result FsError A
required (some a) e = ok a
required none e = err e

abbrev pub hashed :
    (List ℕ → List ℕ) → FilePath → Result ReadFault (List ℕ) → Result FsError ContentHash
hashed sha256 path (ok content) = ok (from_bytes (sha256 content))
hashed sha256 path (err not_opened) = err (open_read path)
hashed sha256 path (err not_read) = err (read_content path)

-- The table of `validate_expected_hash`: whether the target existed, the hash that the caller
-- expects, and the hash on disk.
abbrev pub gate :
    FilePath → Bool → Option ContentHash → Result FsError ContentHash → Result FsError (Unit {0})
gate target false none current = ok tt
gate target true none (ok current) = err (expected_hash_required target current)
gate target true none (err e) = err e
gate target true (some expected) (ok current) =
    if current == expected then ok tt else err (conflict target (some current))
gate target true (some expected) (err e) = err e
gate target false (some expected) current = err (conflict target none)

-- What the metadata allows: a directory or a regular file.
abbrev pub is_directory : FilePath → Metadata → Result FsError Bool
is_directory target missing = err (not_found target)
is_directory target unreadable = err (read_metadata target)
is_directory target (of_kind directory) = ok true
is_directory target (of_kind regular) = ok false
is_directory target (of_kind special) = err (not_file target)

abbrev pub empty : FilePath → FirstEntry → Result FsError (Unit {0})
empty target no_entry = ok tt
empty target some_entry = err (directory_not_empty target)
empty target list_failed = err (read_directory target)
empty target entry_failed = err (read_directory_entry target)

abbrev pub present : FilePath → Bool → Result FsError (Unit {0})
present source true = ok tt
present source false = err (not_found source)

abbrev pub vacant : FilePath → Bool → Result FsError (Unit {0})
vacant destination true = err (destination_exists destination)
vacant destination false = ok tt

abbrev pub is_hard_recursive : DeleteMode → Bool
is_hard_recursive hard_recursive = true
is_hard_recursive _ = false

abbrev pub is_trash : DeleteMode → Bool
is_trash trash = true
is_trash _ = false

module _ {W : Type 0} (disk : Disk W) (roots : VaultSet) where
  -- `hash_file`
  unfoldable pub hash_file : FilePath → W → Result FsError ContentHash
  hash_file path w = hashed disk.sha256 path (disk.read_file path w)

  unfoldable pub validate_expected_hash :
      FilePath → Bool → WriteMutation → W → Result FsError (Unit {0})
  validate_expected_hash target existed request w =
      if request.force
      then ok tt
      else gate target existed request.expected_hash (hash_file target w)

  abbrev pub revalidated : VaultPath → Exec W FsError FilePath
  revalidated path = look (λ w. revalidate (disk.host w) roots path)

  -- A failure drops the temporary file.
  abbrev pub dropping : {A : Type 0} → FilePath → Result FsError A × W → Result FsError A × W
  dropping temporary (ok a, w) = (ok a, w)
  dropping temporary (err e, w) = (err e, disk.drop_temporary temporary w)

  -- From `write_all` to `persist`.
  unfoldable pub replace : FilePath → List ℕ → FilePath → Exec W FsError (Unit {0})
  replace target content temporary = do
    attempt (Error.write_temporary target) (disk.write_temporary temporary content)
    attempt (flush_temporary target) (disk.sync_temporary temporary)
    attempt (atomic_write_interrupted target) (disk.after_flush target)
    attempt (persist_temporary target) (disk.persist temporary target)

  abbrev pub with_temporary :
      FilePath → List ℕ → Option FilePath × W → Result FsError (Unit {0}) × W
  with_temporary target content (none, w) = (err (create_temporary target), w)
  with_temporary target content (some temporary, w) =
      dropping temporary (replace target content temporary w)

  -- `Filesystem::write`
  unfoldable pub write : WriteMutation → Exec W FsError WriteOutcome
  write request = do
    target ← revalidated request.path
    existed ← look (λ w. ok (disk.exists target w))
    look (validate_expected_hash target existed request)
    directory_above ← look (λ w. required (parent target) (create_parent target))
    attempt (create_parent directory_above) (disk.create_dir_all directory_above)
    _ ← revalidated request.path
    (λ w. with_temporary target (bytes request.content) (disk.new_temporary directory_above w))
    look (λ w. ok (record {
      path = request.path;
      bytes_written = length (bytes request.content);
      content_hash = from_bytes (disk.sha256 (bytes request.content));
      created = not existed;
    }))

  abbrev pub new_directory :
      CreateDirectoryMutation → FilePath → Exec W FsError CreateDirectoryOutcome
  new_directory request target = do
    attempt (Error.create_directory target) (disk.create_dir_all target)
    _ ← revalidated request.path
    look (λ w. ok (record { path = request.path; created = true }))

  abbrev pub old_directory :
      CreateDirectoryMutation → FilePath → W → Result FsError CreateDirectoryOutcome
  old_directory request target w =
      if (disk.host w).is_dir target
      then ok (record { path = request.path; created = false })
      else err (not_directory target)

  -- `Filesystem::create_directory`
  unfoldable pub create_directory : CreateDirectoryMutation → Exec W FsError CreateDirectoryOutcome
  create_directory request = do
    target ← revalidated request.path
    existed ← look (λ w. ok (disk.exists target w))
    if existed then look (old_directory request target) else new_directory request target

  -- `Filesystem::move_path`
  unfoldable pub move_path : MoveMutation → Exec W FsError MoveOutcome
  move_path request = do
    source ← revalidated request.source
    look (λ w. present source (disk.exists source w))
    destination ← revalidated request.destination
    look (λ w. vacant destination (disk.exists destination w))
    directory_above ← look (λ w. required (parent destination) (create_parent destination))
    attempt (create_parent directory_above) (disk.create_dir_all directory_above)
    _ ← revalidated request.destination
    attempt (Error.move_path source destination) (disk.rename source destination)
    look (λ w. ok (record { source = request.source; destination = request.destination }))

  -- The last `match` of `Filesystem::delete`.
  unfoldable pub remove : DeleteMode → Bool → FilePath → Exec W FsError (Unit {0})
  remove trash is_dir target = attempt (trash_path target) (disk.trash target)
  remove hard true target = attempt (Error.delete_path target) (disk.remove_dir target)
  remove hard false target = attempt (Error.delete_path target) (disk.remove_file target)
  remove hard_recursive true target =
      attempt (Error.delete_path target) (disk.remove_dir_all target)
  remove hard_recursive false target = attempt (Error.delete_path target) (disk.remove_file target)

  -- `Filesystem::delete`
  unfoldable pub delete : DeleteMutation → Exec W FsError DeleteOutcome
  delete request = do
    target ← revalidated request.path
    is_dir ← look (λ w. is_directory target (disk.metadata target w))
    look (λ w.
        if is_dir && not (is_hard_recursive request.mode)
        then empty target (disk.read_dir target w)
        else ok tt)
    remove request.mode is_dir target
    look (λ w. ok (record { path = request.path; deleted = true; trashed = is_trash request.mode }))

  -- `Filesystem::append`
  unfoldable pub append : AppendMutation → Exec W FsError AppendOutcome
  append request = do
    target ← revalidated request.path
    existed ← look (λ w. ok (disk.exists target w))
    directory_above ← look (λ w. required (parent target) (create_parent target))
    attempt (create_parent directory_above) (disk.create_dir_all directory_above)
    _ ← revalidated request.path
    attempt (open_append target) (disk.open_append target)
    size ← look (λ w. required (disk.length_of target w) (read_metadata target))
    let appended =
        bytes (if size == 0 then request.preamble ++ request.content else request.content)
    attempt (append_content target) (disk.append_bytes target appended)
    attempt (flush_append target) (disk.sync_data target)
    look (λ w.
        ok
          (record { path = request.path; bytes_appended = length appended; created = not existed }))

  -- `impl AppliesMutations for Filesystem`
  abbrev pub filesystem : AppliesMutations W FsError
  filesystem = record {
    write = write;
    create_directory = create_directory;
    move_path = move_path;
    delete = delete;
    append = append;
  }
