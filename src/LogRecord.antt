-- ===== src/LogRecord.antt =====
-- The text of a record of the operation log and the name of its file
-- (crates/contextos-oplog/src/lib.rs).
pub mod Line
use context_os_mcp.Prelude.{
  Bool, List, Text, [], codes, if◌then◌else◌, join_text, map, nat_eq, padded, reverse,
  split_whitespace, starts_with, ℕ, ◌++◌, ◌==◌, ◌∷◌,
}
use context_os_mcp.FilePath.{FilePath}
use context_os_mcp.Vault.Confine.{VaultPath}
use context_os_mcp.Operation.{
  OpKind, create, modify, move, delete, restore, forward_slash_display, path_text,
}

-- What the log reads from a timestamp of the `time` crate.
pub record Calendar (T : Type 0) : Type 0 where
  pub year : T → ℕ
  pub month : T → ℕ
  pub day : T → ℕ
  pub hour : T → ℕ
  pub minute : T → ℕ
  pub second : T → ℕ

-- `str::replace('|', "\\|")`
abbrev pub escape_pipes : Text → Text
escape_pipes [] = []
escape_pipes (c ∷ cs) = if c == b'|' then b'\\' ∷ c ∷ escape_pipes cs else c ∷ escape_pipes cs

unfoldable pub single_line : Text → Text
single_line value = escape_pipes (join_text (codes " ") (split_whitespace value))

-- `OperationName::from(OpKind)`
abbrev pub operation_name : OpKind → Text
operation_name create = codes "create"
operation_name modify = codes "modify"
operation_name move = codes "move"
operation_name delete = codes "delete"
operation_name restore = codes "restore"

abbrev pub ends_with_slash : Text → Bool
ends_with_slash s = starts_with (reverse s) (codes "/")

-- `Path::join(&relative)` on the texts.
unfoldable pub joined_text : FilePath → Text → Text
joined_text base relative =
    let text = path_text base in
    if starts_with relative (codes "/")
    then relative
    else if ends_with_slash text
    then text ++ relative
    else text ++ b'/' ∷ relative

-- The paths of a record, each on one line.
unfoldable pub file_list : List VaultPath → Text
file_list files =
    join_text (codes ", ")
      (map (λ (p : VaultPath). single_line (forward_slash_display p.relative)) files)

module _ {T : Type 0} (c : Calendar T) where
  abbrev pub date_text : T → Text
  date_text at =
      padded 4 (c.year at)
      ++ (codes "-" ++ (padded 2 (c.month at) ++ (codes "-" ++ padded 2 (c.day at))))

  -- The file of a day, below the root.
  unfoldable pub relative_file : Text → T → Text
  relative_file directory at =
      directory
      ++ (codes "/"
          ++ (padded 4 (c.year at)
              ++ (codes "/"
                  ++ (padded 2 (c.month at) ++ (codes "/" ++ (date_text at ++ codes ".md"))))))

  -- One record of the log.
  unfoldable pub record_line : T → Text → Text → Text → List VaultPath → Text
  unfolding file_list
  record_line at origin operation summary files =
      padded 2 (c.hour at)
      ++ (codes ":"
          ++ (padded 2 (c.minute at)
              ++ (codes ":"
                  ++ (padded 2 (c.second at)
                      ++ (codes " | "
                          ++ (single_line origin
                              ++ (codes " | "
                                  ++ (single_line operation
                                      ++ (codes " | "
                                          ++ (single_line summary
                                              ++ (codes " | files: "
                                                  ++ (file_list files ++ codes "\n"))))))))))))

  unfoldable pub preamble_text : T → Text
  preamble_text at = codes "# " ++ (date_text at ++ codes ": Operation Log\n\n")
