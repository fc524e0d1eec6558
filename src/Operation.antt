-- ===== src/Operation.antt =====
-- Operation events, and the requests and outcomes of mutations
-- (crates/contextos-core/src/pipeline.rs). `T` is the time type of the `time` crate.
use context_os_mcp.Prelude.{Bool, List, Option, Text, codes, false, join_text, map, ℕ, ◌∷◌}
use context_os_mcp.FilePath.{FilePath, Component, root_dir, cur_dir, parent_dir, normal}
use context_os_mcp.Vault.Confine.{VaultPath}
use context_os_mcp.Hash.{ContentHash}

pub data Origin : Type 0 where
  tool internal : Text → Origin

pub data OpKind : Type 0 where
  create modify move delete restore : OpKind

pub record OperationEvent (T : Type 0) : Type 0 where
  pub kind : OpKind
  pub paths : List VaultPath
  pub origin : Origin
  pub summary : Text
  pub at : T

pub record OperationWarning : Type 0 where
  pub code : Text
  pub message : Text

pub record WriteMutation : Type 0 where
  pub path : VaultPath
  pub content : Text
  pub expected_hash : Option ContentHash
  pub force : Bool
  pub origin : Origin

pub record RestoreMutation : Type 0 where
  pub path : VaultPath
  pub content : Text
  pub expected_hash : Option ContentHash
  pub origin : Origin

pub data DeleteMode : Type 0 where
  trash hard hard_recursive : DeleteMode

pub record DeleteMutation : Type 0 where
  pub path : VaultPath
  pub mode : DeleteMode
  pub origin : Origin

pub record DeleteOutcome : Type 0 where
  pub path : VaultPath
  pub deleted : Bool
  pub trashed : Bool

pub record AppendMutation : Type 0 where
  pub path : VaultPath
  pub preamble : Text
  pub content : Text
  pub origin : Origin

pub record AppendOutcome : Type 0 where
  pub path : VaultPath
  pub bytes_appended : ℕ
  pub created : Bool

pub record WriteOutcome : Type 0 where
  pub path : VaultPath
  pub bytes_written : ℕ
  pub content_hash : ContentHash
  pub created : Bool

pub record CreateDirectoryMutation : Type 0 where
  pub path : VaultPath
  pub origin : Origin

pub record CreateDirectoryOutcome : Type 0 where
  pub path : VaultPath
  pub created : Bool

pub record MoveMutation : Type 0 where
  pub source : VaultPath
  pub destination : VaultPath
  pub origin : Origin

pub record MoveOutcome : Type 0 where
  pub source : VaultPath
  pub destination : VaultPath

-- `WriteMutation::from(&RestoreMutation)`
unfoldable pub write_from_restore : RestoreMutation → WriteMutation
write_from_restore value = record {
  path = value.path;
  content = value.content;
  expected_hash = value.expected_hash;
  force = false;
  origin = value.origin;
}

abbrev pub component_text : Component → Text
component_text root_dir = codes "/"
component_text cur_dir = codes "."
component_text parent_dir = codes ".."
component_text (normal name) = name

-- `forward_slash_display` of a relative path
unfoldable pub forward_slash_display : FilePath → Text
forward_slash_display relative = join_text (codes "/") (map component_text relative)

-- The text of a path: `to_str`, `to_string_lossy`.
abbrev pub path_text : FilePath → Text
path_text (root_dir ∷ rest) = b'/' ∷ forward_slash_display rest
path_text p = forward_slash_display p
