-- ===== src/Files/Disk.antt =====
-- What the adapter calls: `std::fs`, and the tempfile, trash and sha2 crates. It is a parameter of
-- the model, over a world `W`, with the documented behaviour as laws.
use context_os_mcp.Prelude.{Bool, List, Option, Result, ℕ}
use context_os_mcp.Exec.{Act}
use context_os_mcp.FilePath.{FilePath}
use context_os_mcp.Host.{Host}

pub data FileKind : Type 0 where
  directory regular special : FileKind

-- The outcome of `Path::metadata`, its error by kind.
pub data Metadata : Type 0 where
  of_kind : FileKind → Metadata
  missing unreadable : Metadata

pub data ReadFault : Type 0 where
  not_opened not_read : ReadFault

-- The first entry of a directory.
pub data FirstEntry : Type 0 where
  no_entry some_entry list_failed entry_failed : FirstEntry

-- The calls that change the world say whether they succeeded.
pub record Disk (W : Type 0) : Type 0 where
  pub host : W → Host
  pub exists : FilePath → W → Bool
  pub metadata : FilePath → W → Metadata
  pub read_file : FilePath → W → Result ReadFault (List ℕ)
  pub read_dir : FilePath → W → FirstEntry
  pub sha256 : List ℕ → List ℕ
  pub create_dir_all : FilePath → Act W Bool
  -- `NamedTempFile`: its creation in a directory, its calls, and its removal when it is dropped
  pub new_temporary : FilePath → Act W (Option FilePath)
  pub write_temporary : FilePath → List ℕ → Act W Bool
  pub sync_temporary : FilePath → Act W Bool
  pub drop_temporary : FilePath → W → W
  -- `NamedTempFile::persist` over a target
  pub persist : FilePath → FilePath → Act W Bool
  -- `GuardsAtomicWrites::after_flush`
  pub after_flush : FilePath → Act W Bool
  pub rename : FilePath → FilePath → Act W Bool
  pub trash : FilePath → Act W Bool
  pub remove_dir : FilePath → Act W Bool
  pub remove_file : FilePath → Act W Bool
  pub remove_dir_all : FilePath → Act W Bool
  -- A file opened for append, created when it is missing; its length; a write at its end.
  pub open_append : FilePath → Act W Bool
  pub length_of : FilePath → W → Option ℕ
  pub append_bytes : FilePath → List ℕ → Act W Bool
  pub sync_data : FilePath → Act W Bool
