-- ===== src/Examples/Edits.antt =====
-- Edits of a concrete file through the service.
use context_os_mcp.Prelude.{
  Bool, List, Option, Result, Text, [], codes, false, length, list_eq, nat_eq, none, option_eq,
  refl, some, ℕ, ◌>>=◌, ◌∷◌, ◌≡◌, ◌⊎◌,
}
use context_os_mcp.Exec
use context_os_mcp.FilePath.{components, join}
use context_os_mcp.Vault.Root.{id_try_from, is_valid_scheme_token}
use context_os_mcp.Vault.Set.{root_by_name}
use context_os_mcp.Vault.Lexical.{validate_lexical_input, validate_windows_input}
use context_os_mcp.Vault.Resolve.{resolve_with_missing_suffix, climb, at_ancestor, push_all}
use context_os_mcp.Vault.Confine.{
  split_once, named_prefix, select, build, finish, resolve_plain, try_from, authorises,
}
use context_os_mcp.Hash.{hex_digit, encode, from_bytes}
use context_os_mcp.Operation.{OperationEvent, OperationWarning, tool, forward_slash_display}
use context_os_mcp.Pipeline
use context_os_mcp.Pipeline.{routed_write, route_result}
use context_os_mcp.Files.Error.{FsError}
use context_os_mcp.Files.Mutate.{revalidate, hash_file, validate_expected_hash, replace, write}
use context_os_mcp.Files.Edit.{apply_exact_edit, apply_edits}
use context_os_mcp.Files.Read.{
  FsLimits, Filesystem, observe, ReadsDisk, Stat, Stream, regular_file, missing, raw_lines,
  read_buffer, read_buffers, limits_of, read_text,
}
use context_os_mcp.Files.Read.Utf8.{from_utf8, utf8_from}
use context_os_mcp.Files.Read
use context_os_mcp.Files.Read
use context_os_mcp.Files.Service.{EditFileRequest, EditFileResult, service_from, edit_file}
use context_os_mcp.Files.Service.Edited.{service, IsKept, IsWritten, edit_file-IsEdited}
use context_os_mcp.Examples.Server.{both}
use context_os_mcp.Examples.Services.{todo}
use context_os_mcp.Examples.Lawful.{listed-IsDisk}
use context_os_mcp.Examples.Disks.{Entries, file_at, listed}
use context_os_mcp.Examples.Notes.{rename_word}

abbrev stat_of : Option (List ℕ) → Stat
stat_of none = missing
stat_of (some content) = regular_file (length content)

abbrev stream_of : Option (List ℕ) → Option Stream
stream_of none = none
stream_of (some content) = some (record { content = content; breaks = false })

abbrev reads : Entries → ReadsDisk
reads w = record {
  stat = λ p. stat_of (file_at p w);
  open_file = λ p. stream_of (file_at p w);
  sha256 = λ bs. bs;
}

abbrev limits : FsLimits
limits = record { max_read_bytes = 100; max_batch_files = 2 }

abbrev vaults : Filesystem
vaults = record { roots = both; limits = limits ∷ limits ∷ []; hidden = [] ∷ [] ∷ [] }

abbrev now : Entries → ℕ × Entries
now w = (5, w)

abbrev quiet : OperationEvent ℕ → Entries → List OperationWarning × Entries
quiet event w = ([], w)

abbrev no_diff : Text → Text → Text
no_diff old new = new

abbrev shopping : Entries
shopping = (todo.absolute, codes "buy milk now") ∷ []

abbrev swap : Bool → EditFileRequest
swap dry = record {
  path = todo;
  edits = rename_word ∷ [];
  dry_run = dry;
  expected_hash = none;
  force = false;
  origin = tool (codes "fs_edit_file");
}

abbrev outcome : Bool → Result FsError (EditFileResult ℕ) × Entries
outcome dry =
    edit_file no_diff (service no_diff file_at listed listed-IsDisk reads vaults now quiet)
      (swap dry) shopping

edited_world : (outcome false).1 ≡ (todo.absolute, codes "buy bread now") ∷ shopping
unfolding edit_file service_from apply_edits apply_exact_edit routed_write route_result
    Pipeline.write read_text limits_of raw_lines read_buffers read_buffer from_utf8 utf8_from
    observe Read.select Read.finish write revalidate hash_file validate_expected_hash replace
    authorises Exec.◌>>=◌ try_from named_prefix resolve_plain finish build select split_once
    validate_lexical_input validate_windows_input resolve_with_missing_suffix climb at_ancestor
    push_all root_by_name id_try_from is_valid_scheme_token components join ◌>>=◌
    forward_slash_display from_bytes encode hex_digit
edited_world = refl

edit_file-IsEdited_example :
    IsKept no_diff file_at listed listed-IsDisk reads vaults now quiet
      (swap false)
      shopping
      (outcome false)
    ⊎ IsWritten no_diff file_at listed listed-IsDisk reads vaults now quiet
        (swap false)
        shopping
        (outcome false)
edit_file-IsEdited_example =
    edit_file-IsEdited no_diff file_at listed listed-IsDisk reads vaults now quiet (swap false)
      shopping
