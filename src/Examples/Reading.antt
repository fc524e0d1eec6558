-- ===== src/Examples/Reading.antt =====
-- Reading a note of three lines, by window and in a batch.
use context_os_mcp.Prelude.{
  List, Text, [], arith, codes, false, get_elem?, if◌then◌else◌, list_eq, map, none, ok, refl, some,
  true, ℕ, ◌==◌, ◌>>=◌, ◌↔◌, ◌∷◌, ◌≡◌, ◌≤◌,
}
use context_os_mcp.Vault.Confine.{authorises}
use context_os_mcp.FilePath.{join, component_eq}
use context_os_mcp.Hash.{from_bytes}
use context_os_mcp.Files.Error.{FsError}
use context_os_mcp.Files.Read.Utf8.{from_utf8, utf8_from}
use context_os_mcp.Files.Read.{
  FsLimits, Filesystem, tail, observe, select, finish, ReadsDisk, regular_file, missing, raw_lines,
  read_buffer, read_buffers, limits_of, ReadTextRequest, ReadTextResult, read_text, ReadManyResult,
  read_many, read_entry,
}
use context_os_mcp.Files.Read.Exact.{IsRead, read_text_iff}
use context_os_mcp.Files.Read.Batch.{count_root, read_many_iff}
use context_os_mcp.Examples.Server.{both}
use context_os_mcp.Examples.Services.{todo}

abbrev note : Text
note = codes "one\ntwo\nthree"

abbrev shelf : ReadsDisk
shelf = record {
  stat = λ p. if p == todo.absolute then regular_file 13 else missing;
  open_file =
      λ p. if p == todo.absolute then some (record { content = note; breaks = false }) else none;
  sha256 = λ bs. bs;
}

abbrev limits : FsLimits
limits = record { max_read_bytes = 10; max_batch_files = 2 }

abbrev vaults : Filesystem
vaults = record { roots = both; limits = limits ∷ limits ∷ []; hidden = [] ∷ [] ∷ [] }

abbrev last_two : ReadTextRequest
last_two = record { path = todo; limit = some (tail 2) }

abbrev last_result : ReadTextResult
last_result = record {
  content = codes "two\nthree";
  line_count = 3;
  content_hash = from_bytes note;
  truncated = true;
}

-- The whole file is larger than the limit; its tail is read nevertheless.
reads_tail : read_text shelf vaults last_two ≡ ok last_result
unfolding read_text limits_of authorises join raw_lines read_buffers read_buffer from_utf8 utf8_from
    observe select finish ◌>>=◌
reads_tail = refl

read_text_iff_example :
    (read_text shelf vaults last_two ≡ ok last_result) ↔ IsRead shelf vaults last_two last_result
read_text_iff_example = read_text_iff shelf vaults last_two tt last_result

abbrev describe : FsError → ℕ
describe e = 1

abbrev entries : List (ReadManyResult ℕ)
entries = map (read_entry describe shelf vaults) (todo ∷ todo ∷ [])

read_many_iff_example : (read_many describe shelf vaults (todo ∷ todo ∷ []) ≡ ok entries) ↔ (
    (entries ≡ map (read_entry describe shelf vaults) (todo ∷ todo ∷ []))
    × ((i : ℕ) (l : FsLimits)
        → get_elem? vaults.limits i ≡ some l
        → count_root vaults i (todo ∷ todo ∷ []) ≤ l.max_batch_files))
read_many_iff_example =
    read_many_iff describe shelf vaults (todo ∷ todo ∷ []) entries
      ((λ _. omega arith), ((λ _. omega arith), tt))
