-- ===== src/Examples/Mutations.antt =====
-- Mutations of the files of the example server.
use context_os_mcp.Prelude.{
  Option, Text, [], codes, err, false, ok, refl, some, true, ◌++◌, ◌>>=◌, ◌∷◌, ◌≡◌,
}
use context_os_mcp.Exec
use context_os_mcp.FilePath.{normal, components, join}
use context_os_mcp.Vault.Root.{id_try_from, is_valid_scheme_token}
use context_os_mcp.Vault.Set.{root_by_name}
use context_os_mcp.Vault.Lexical.{validate_lexical_input, validate_windows_input}
use context_os_mcp.Vault.Resolve.{resolve_with_missing_suffix, climb, at_ancestor, push_all}
use context_os_mcp.Vault.Confine.{
  VaultPath, split_once, named_prefix, select, build, finish, resolve_plain, try_from, authorises,
}
use context_os_mcp.Hash.{hex_digit, encode, ContentHash, from_bytes}
use context_os_mcp.Operation.{
  tool, internal, WriteMutation, WriteOutcome, MoveMutation, DeleteMutation, trash, AppendMutation,
  forward_slash_display,
}
use context_os_mcp.Files.Error.{conflict}
use context_os_mcp.Files.Mutate.{
  revalidate, hash_file, validate_expected_hash, replace, write, move_path, delete, append,
}
use context_os_mcp.Files.Gate.{Shown, write-Shown}
use context_os_mcp.Files.Laws.{KeptBut, KeptOutside}
use context_os_mcp.Files.Atomic.{Atomic, write-Atomic}
use context_os_mcp.Files.Spare.{delete-Spares, move_path-Spares}
use context_os_mcp.Files.Grow.{Grown, append-Grown}
use context_os_mcp.Examples.Server.{both, notes}
use context_os_mcp.Examples.Services.{todo}
use context_os_mcp.Examples.Disks.{Entries, file_at, listed}
use context_os_mcp.Examples.Lawful.{listed-IsDisk}

abbrev milk : Entries
milk = (todo.absolute, codes "milk") ∷ []

abbrev request : Text → Option ContentHash → WriteMutation
request content expected = record {
  path = todo;
  content = content;
  expected_hash = expected;
  force = false;
  origin = tool (codes "vault_write");
}

abbrev bread : WriteMutation
bread = request (codes "bread") (some (from_bytes (codes "milk")))

abbrev replaced : WriteOutcome
replaced = record {
  path = todo;
  bytes_written = 5;
  content_hash = from_bytes (codes "bread");
  created = false;
}

bread_written : write listed both bread milk ≡ (ok replaced, (todo.absolute, codes "bread") ∷ milk)
unfolding write revalidate hash_file validate_expected_hash replace authorises Exec.◌>>=◌ try_from
    named_prefix resolve_plain finish build select split_once validate_lexical_input
    validate_windows_input resolve_with_missing_suffix climb at_ancestor push_all root_by_name
    id_try_from is_valid_scheme_token components join ◌>>=◌ forward_slash_display from_bytes encode
    hex_digit
bread_written = refl

-- A caller that saw an older content is told the hash of the present one.
stale_refused :
    write listed both (request (codes "bread") (some (from_bytes (codes "beer")))) milk
    ≡ (err (conflict todo.absolute (some (from_bytes (codes "milk")))), milk)
unfolding write revalidate hash_file validate_expected_hash replace authorises Exec.◌>>=◌ try_from
    named_prefix resolve_plain finish build select split_once validate_lexical_input
    validate_windows_input resolve_with_missing_suffix climb at_ancestor push_all root_by_name
    id_try_from is_valid_scheme_token components join ◌>>=◌ forward_slash_display from_bytes encode
    hex_digit
stale_refused = refl

write-Shown_example : (authorises both todo ≡ true) × Shown listed both bread milk
write-Shown_example =
    write-Shown listed both bread milk ((todo.absolute, codes "bread") ∷ milk) replaced
      bread_written

write-Atomic_example :
    Atomic file_at listed listed-IsDisk both todo.absolute
      (codes "bread")
      milk
      (write listed both bread milk).0
      (write listed both bread milk).1
write-Atomic_example = write-Atomic file_at listed listed-IsDisk both bread milk

abbrev removal : DeleteMutation
removal = record { path = todo; mode = trash; origin = tool (codes "vault_delete") }

delete-Spares_example : KeptBut file_at todo.absolute milk (delete listed both removal milk).1
delete-Spares_example = delete-Spares file_at listed listed-IsDisk both removal milk refl

abbrev done : VaultPath
done = record {
  root = record { value = 0 };
  relative = normal (codes "done.md") ∷ [];
  absolute = notes ++ normal (codes "done.md") ∷ [];
}

abbrev renaming : MoveMutation
renaming = record { source = todo; destination = done; origin = tool (codes "vault_move") }

move_path-Spares_example :
    KeptOutside file_at todo.absolute milk (move_path listed both renaming milk).1
move_path-Spares_example = move_path-Spares file_at listed listed-IsDisk both renaming milk

abbrev line : AppendMutation
line = record {
  path = todo;
  preamble = codes "# List\n";
  content = codes "eggs\n";
  origin = internal (codes "oplog");
}

append-Grown_example :
    Grown file_at listed listed-IsDisk both line todo.absolute milk
      (append listed both line milk).0
      (append listed both line milk).1
append-Grown_example = append-Grown file_at listed listed-IsDisk both line milk
