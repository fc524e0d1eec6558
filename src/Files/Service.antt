-- ===== src/Files/Service.antt =====
-- `FilesystemService` (crates/contextos-fs/src/mutate.rs): the adapter behind a pipeline that tells
-- the services, and `edit_file`. `unified_diff` is the similar crate's, from the old text to the new.
pub mod Edited
use context_os_mcp.Prelude.{
  Bool, List, Option, Text, [], bytes, false, list_eq, nat_eq, none, ok, option_eq, some, true, ◌-◌,
  ◌/◌,
}
use context_os_mcp.Exec.{Exec, Act, look, ◌>>=◌, ◌>>◌}
use context_os_mcp.Vault.Confine.{VaultPath}
use context_os_mcp.Hash.{ContentHash, from_bytes}
use context_os_mcp.Operation.{
  Origin, OperationEvent, OperationWarning, WriteMutation, WriteOutcome, RestoreMutation,
  DeleteMutation, DeleteOutcome, AppendMutation, AppendOutcome, CreateDirectoryMutation,
  CreateDirectoryOutcome, MoveMutation, MoveOutcome, path_text,
}
use context_os_mcp.Pipeline.{
  RoutedWritePipeline, PipelineResult, routed_write, routed_restore, routed_delete, routed_append,
  routed_create_directory, routed_move,
}
use context_os_mcp.Files.Error.{FsError}
use context_os_mcp.Files.Disk.{Disk}
use context_os_mcp.Files.Mutate.{filesystem}
use context_os_mcp.Files.Edit.{TextEdit, apply_edits}
use context_os_mcp.Files.Read.{Filesystem, ReadsDisk, ReadTextRequest, ReadTextResult, read_text}

pub record EditFileRequest : Type 0 where
  pub path : VaultPath
  pub edits : List TextEdit
  pub dry_run : Bool
  pub expected_hash : Option ContentHash
  pub force : Bool
  pub origin : Origin

pub record EditFileResult (T : Type 0) : Type 0 where
  pub path : Text
  pub diff : Text
  pub applied : Bool
  pub content_hash : ContentHash
  pub event : Option (OperationEvent T)
  pub warnings : List OperationWarning

-- The service, with what it asks of the disk.
pub record FilesystemService (W T : Type 0) : Type 0 where
  pub disk : Disk W
  pub reads : W → ReadsDisk
  pub vaults : Filesystem
  pub pipeline : RoutedWritePipeline W FsError T

abbrev pub or_read : Option ContentHash → ContentHash → Option ContentHash
or_read none read = some read
or_read (some expected) read = some expected

-- The write that `edit_file` asks for
abbrev pub write_of : EditFileRequest → ReadTextResult → Text → WriteMutation
write_of request current modified = record {
  path = request.path;
  content = modified;
  expected_hash = or_read request.expected_hash current.content_hash;
  force = request.force;
  origin = request.origin;
}

module _ {W T : Type 0} where
  -- `FilesystemService::from`
  unfoldable pub service_from :
      Disk W
      → (W → ReadsDisk)
      → Filesystem
      → Act W T
      → (OperationEvent T → Act W (List OperationWarning))
      → FilesystemService W T
  service_from disk reads vaults now route = record {
    disk = disk;
    reads = reads;
    vaults = vaults;
    pipeline = record {
      pipeline = record { adapter = filesystem disk vaults.roots; now = now };
      route = route;
    };
  }

  module _ (unified_diff : Text → Text → Text) (s : FilesystemService W T) where
    abbrev pub proposed : EditFileRequest → ReadTextResult → Text → EditFileResult T
    proposed request current modified = record {
      path = path_text request.path.relative;
      diff = unified_diff current.content modified;
      applied = false;
      content_hash = from_bytes (s.disk.sha256 (bytes modified));
      event = none;
      warnings = [];
    }

    abbrev pub applied_result :
        EditFileRequest → ReadTextResult → Text → PipelineResult T WriteOutcome → EditFileResult T
    applied_result request current modified write = record {
      path = path_text request.path.relative;
      diff = unified_diff current.content modified;
      applied = true;
      content_hash = write.value.content_hash;
      event = write.event;
      warnings = write.warnings;
    }

    abbrev pub apply_or_show :
        Bool → EditFileRequest → ReadTextResult → Text → Exec W FsError (EditFileResult T)
    apply_or_show true request current modified = look (λ w. ok (proposed request current modified))
    apply_or_show false request current modified = do
      write ← routed_write s.pipeline (write_of request current modified)
      look (λ w. ok (applied_result request current modified write))

    -- `edit_file`
    unfoldable pub edit_file : EditFileRequest → Exec W FsError (EditFileResult T)
    edit_file request = do
      current ←
          look (λ w. read_text (s.reads w) s.vaults (record { path = request.path; limit = none }))
      modified ← look (λ w. apply_edits current.content request.edits request.path)
      apply_or_show request.dry_run request current modified

  -- The methods that forward to the pipeline
  unfoldable pub write_file :
      FilesystemService W T → WriteMutation → Exec W FsError (PipelineResult T WriteOutcome)
  write_file s request = routed_write s.pipeline request

  unfoldable pub restore_file :
      FilesystemService W T → RestoreMutation → Exec W FsError (PipelineResult T WriteOutcome)
  restore_file s request = routed_restore s.pipeline request

  unfoldable pub delete_path :
      FilesystemService W T → DeleteMutation → Exec W FsError (PipelineResult T DeleteOutcome)
  delete_path s request = routed_delete s.pipeline request

  unfoldable pub append_file :
      FilesystemService W T → AppendMutation → Exec W FsError (PipelineResult T AppendOutcome)
  append_file s request = routed_append s.pipeline request

  unfoldable pub create_directory :
      FilesystemService W T
      → CreateDirectoryMutation
      → Exec W FsError (PipelineResult T CreateDirectoryOutcome)
  create_directory s request = routed_create_directory s.pipeline request

  unfoldable pub move_file :
      FilesystemService W T → MoveMutation → Exec W FsError (PipelineResult T MoveOutcome)
  move_file s request = routed_move s.pipeline request
