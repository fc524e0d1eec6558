-- ===== src/Vault/Lexical.antt =====
-- The checks on the text of a tool's path, before the file system is asked
-- (crates/contextos-core/src/path.rs).
use context_os_mcp.Prelude.{
  split_on, Bool, List, Result, Text, [], any, arith, bytes, codes, contains, drop, err, false,
  if◌then◌else◌, is_ascii_alphabetic, list_eq, nat_eq, ok, starts_with, ℕ, ◌&&◌, ◌==◌, ◌||◌, ◌∷◌,
  ◌≡◌,
}
use context_os_mcp.FilePath.{parent_dir, component_eq, components}
use context_os_mcp.Vault.Error.{
  PathError, invalid, traversal, windows_verbatim, unsupported_windows_path, alternate_data_stream,
}

-- A drive letter and a colon, on the bytes of the text.
abbrev pub has_drive : List ℕ → Bool
has_drive (letter ∷ colon ∷ _) = is_ascii_alphabetic letter && colon == b':'
has_drive _ = false

-- `validate_windows_input`, in its build for hosts other than Windows.
unfoldable pub validate_windows_input : Text → Result PathError (Unit {0})
validate_windows_input raw =
    if starts_with raw (codes "\\\\?\\") || starts_with raw (codes "\\\\.\\")
    then err (windows_verbatim (components raw))
    else if starts_with raw (codes "\\\\") || has_drive (bytes raw)
    then err (unsupported_windows_path (components raw))
    else (let without_drive = if has_drive (bytes raw) then drop 2 raw else raw in
        if contains b':' without_drive then err (alternate_data_stream (components raw)) else ok tt)

abbrev pub is_separator : ℕ → Bool
is_separator c = c == b'/' || c == b'\\'

abbrev pub is_dot_dot : Text → Bool
is_dot_dot piece = piece == codes ".."

-- `validate_lexical_input`
unfoldable pub validate_lexical_input : Text → Result PathError (Unit {0})
unfolding validate_windows_input
validate_lexical_input raw =
    if raw == [] || contains 0 raw
    then err (invalid (components raw))
    else if contains parent_dir (components raw) || any is_dot_dot (split_on is_separator raw)
    then err (traversal (components raw))
    else validate_windows_input raw

-- What an accepted text is free of.
pub record IsClean (raw : Text) : Type 0 where
  pub not_empty : (raw == []) ≡ false
  pub no_nul : contains 0 raw ≡ false
  pub no_parent : contains parent_dir (components raw) ≡ false
  pub no_dot_dot : any is_dot_dot (split_on is_separator raw) ≡ false
  pub no_unc : starts_with raw (codes "\\\\") ≡ false
  pub no_colon : contains b':' raw ≡ false

pub validate_lexical_input-IsClean : (raw : Text) → validate_lexical_input raw ≡ ok tt → IsClean raw
unfolding validate_lexical_input
validate_lexical_input-IsClean raw h = ground arith
