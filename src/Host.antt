-- ===== src/Host.antt =====
-- What the crates ask of the operating system and of the `dunce` and `camino` crates about paths.
-- It is a parameter of the model, with the documented behaviour as laws.
use context_os_mcp.Prelude.{◌≡◌, Bool, Option, some}
use context_os_mcp.FilePath.{FilePath, IsCanonical}

-- The outcome of `std::fs::symlink_metadata`, its error by kind.
pub data Inspection : Type 0 where
  found not_found failed : Inspection

pub record Host : Type 0 where
  pub symlink_metadata : FilePath → Inspection
  -- `dunce::canonicalize`
  pub canonicalize : FilePath → Option FilePath
  pub is_dir : FilePath → Bool
  -- `Utf8PathBuf::from_path_buf`
  pub from_path_buf : FilePath → Option FilePath

-- `canonicalize` returns an absolute path with no `.`, `..` or symbolic link in it, and
-- `from_path_buf` returns the same path or fails.
pub record IsLawful (h : Host) : Type 0 where
  pub canonical : (p q : FilePath) → h.canonicalize p ≡ some q → IsCanonical q
  pub same_path : (p q : FilePath) → h.from_path_buf p ≡ some q → q ≡ p
