-- ===== src/Index/Service/Reconcile.antt =====
-- The reconciliation of one directory and of the directories of an event: `migrate_legacy_index`,
-- `persist_directory` and `reconcile_event` (crates/contextos-index/src/lib.rs).
pub mod Allowed
pub mod Kept
use context_os_mcp.Exec.{Exec, ◌>>=◌, look, mapped}
use context_os_mcp.Prelude.{
  Bool, List, Option, Result, Text, [], any, codes, eq_ignore_ascii_case, err, false, if◌then◌else◌,
  keep, list_eq, map_err, nat_eq, none, not, ok, option_eq, reverse, some, true, ℕ, ◌&&◌, ◌++◌,
  ◌==◌, ◌∷◌,
}
use context_os_mcp.FilePath.{components, join}
use context_os_mcp.Hash.{ContentHash}
use context_os_mcp.Host.{Host}
use context_os_mcp.Operation.{OperationEvent, OperationWarning, Origin, internal, WriteMutation}
use context_os_mcp.Pipeline.{PipelineResult}
use context_os_mcp.Vault.Root.{file_name}
use context_os_mcp.Vault.Confine.{VaultPath, split_once}
use context_os_mcp.Index.Block.{IndexEntry, IndexEntryKind, IndexError}
use context_os_mcp.Index.Block
use context_os_mcp.Index.Document.{index_document}
use context_os_mcp.Index.Summary.{index_summary}
use context_os_mcp.Index.Service.{
  IndexService, IndexServiceError, VaultText, VaultEntry, VaultEntryKind, file, directory,
  read_failed, write_failed, legacy_index_conflict, index_failed, frontmatter_invalid, child_path,
  includes, affected, warning_from,
}

pub data IndexWrite : Type 0 where
  unchanged created updated : IndexWrite

-- `Path::extension` of a file name
abbrev pub extension_behind : Option (Text × Text) → Option Text
extension_behind none = none
extension_behind (some (_, [])) = none
extension_behind (some (back, c ∷ cs)) = some (reverse back)

abbrev pub extension : Option Text → Option Text
extension none = none
extension (some name) = extension_behind (split_once (codes ".") (reverse name))

abbrev pub is_md : Option Text → Bool
is_md none = false
is_md (some e) = eq_ignore_ascii_case e (codes "md")

abbrev pub is_markdown : VaultEntry → Bool
is_markdown entry = is_md (extension (file_name (components entry.name)))

abbrev pub is_file : VaultEntryKind → Bool
is_file file = true
is_file directory = false

abbrev pub entry_kind : VaultEntryKind → IndexEntryKind
entry_kind file = Block.file
entry_kind directory = Block.directory

abbrev pub content_of : Option VaultText → Option Text
content_of none = none
content_of (some text) = some text.content

abbrev pub hash_of : Option VaultText → Option ContentHash
hash_of none = none
hash_of (some text) = some text.content_hash

abbrev pub created_or_updated : Option VaultText → IndexWrite
created_or_updated none = created
created_or_updated (some _) = updated

abbrev pub name_or_vault : Option Text → Text
name_or_vault none = codes "Vault"
name_or_vault (some name) = name

abbrev pub directory_name : VaultPath → Text
directory_name base = name_or_vault (file_name base.relative)

abbrev pub is_named : Text → VaultEntry → Bool
is_named name entry = entry.name == name

abbrev pub own : Origin
own = internal (codes "index")

abbrev pub events_of : {T A : Type 0} → PipelineResult T A → List (OperationEvent T)
events_of result = elim result.event [ none ↦ [] | some event ↦ event ∷ [] ]

module _ {W R E T F : Type 0} (host : W → Host) (s : IndexService W R E T)
    (frontmatter : Text → Result F (Option Text × Text)) (to_lowercase : Text → Text)
    (to_uppercase : ℕ → Text) where
  open s use {read_optional_text, list, persist, move_path}

  abbrev pub Task : Type 0 → Type 0
  Task A = Exec W (IndexServiceError R E F) A

  abbrev pub return : {A : Type 0} → A → Task A
  return a w = (ok a, w)

  abbrev pub raise : {A : Type 0} → IndexServiceError R E F → Task A
  raise e w = (err e, w)

  abbrev pub child : VaultPath → Text → Task VaultPath
  child base name = look (λ w. child_path s (host w) base name)

  abbrev pub read : VaultPath → Task (Option VaultText)
  read path = mapped read_failed (read_optional_text path)

  abbrev pub list_entries : VaultPath → Task (List VaultEntry)
  list_entries path = mapped read_failed (list path)

  -- Whether there is a legacy index, and the events of its migration.
  abbrev pub move_legacy : VaultPath → Task (Bool × List (OperationEvent T))
  move_legacy base = child base (codes "_index.md") >>= λ source.
      child base (codes "index.md") >>= λ destination.
      mapped write_failed
        (move_path (record { source = source; destination = destination; origin = own }))
      >>= λ result. return (true, events_of result)

  -- `IndexService::migrate_legacy_index`
  unfoldable pub migrate_legacy_index :
      VaultPath → List VaultEntry → Bool → Task (Bool × List (OperationEvent T))
  migrate_legacy_index base listing dry_run =
      if not (any (is_named (codes "_index.md")) listing)
      then return (false, [])
      else if any (is_named (codes "index.md")) listing
      then raise (legacy_index_conflict base.relative)
      else if dry_run
      then return (true, [])
      else move_legacy base

  -- The source of an entry's summary: the note's text.
  abbrev pub source_of : VaultPath → VaultEntry → Task (Option Text)
  source_of base entry =
      if is_file entry.kind && is_markdown entry
      then (child base entry.name >>= λ path. read path >>= λ text. return (content_of text))
      else return none

  abbrev pub summary_of :
      VaultPath → VaultEntry → Option Text → Result (IndexServiceError R E F) Text
  summary_of base entry source =
      map_err (frontmatter_invalid (join base.relative (components entry.name)))
        (index_summary frontmatter to_uppercase entry.name source)

  abbrev pub index_entry : VaultEntry → Text → IndexEntry
  index_entry entry summary = record {
    name = entry.name;
    kind = entry_kind entry.kind;
    suggested_summary = summary;
  }

  -- The loop of `persist_directory` over the entries
  unfoldable pub index_rows : VaultPath → List VaultEntry → Task (List IndexEntry)
  index_rows base [] = return []
  index_rows base (entry ∷ entries) = source_of base entry >>= λ source.
      look (λ _. summary_of base entry source) >>= λ summary.
      index_rows base entries >>= λ rows. return (index_entry entry summary ∷ rows)

  abbrev pub document_of :
      VaultPath → Option VaultText → List IndexEntry → Result (IndexServiceError R E F) Text
  document_of base existing rows =
      map_err index_failed
        (index_document to_lowercase to_uppercase (content_of existing) (directory_name base) rows)

  -- The mutation that writes an index file.
  abbrev pub index_mutation : VaultPath → Option VaultText → Text → WriteMutation
  index_mutation path existing content = record {
    path = path;
    content = content;
    expected_hash = hash_of existing;
    force = false;
    origin = own;
  }

  abbrev pub write_index :
      VaultPath → Option VaultText → Text → Task (IndexWrite × List (OperationEvent T))
  write_index path existing content =
      mapped write_failed (persist (index_mutation path existing content)) >>= λ result.
      return (created_or_updated existing, events_of result)

  -- The end of `persist_directory`, with the new content.
  unfoldable pub save_index :
      VaultPath
      → Option VaultText
      → Text
      → Bool
      → Bool
      → Task (IndexWrite × List (OperationEvent T))
  save_index path existing content dry_run legacy_preview =
      if content_of existing == some content
      then return (if dry_run && legacy_preview then updated else unchanged, [])
      else if dry_run
      then return (created_or_updated existing, [])
      else write_index path existing content

  abbrev pub existing_path : VaultPath → VaultPath → Bool → Task VaultPath
  existing_path base index_path preview =
      if preview then child base (codes "_index.md") else return index_path

  -- `IndexService::persist_directory`
  unfoldable pub persist_directory :
      VaultPath → List VaultEntry → Bool → Bool → Task (IndexWrite × List (OperationEvent T))
  persist_directory base entries dry_run legacy_preview =
      child base (codes "index.md") >>= λ index_path.
      existing_path base index_path (legacy_preview && dry_run) >>= λ path.
      read path >>= λ existing.
      index_rows base (keep (λ entry. not (is_named (codes "index.md") entry)) entries) >>= λ rows.
      look (λ _. document_of base existing rows) >>= λ content.
      save_index index_path existing content dry_run legacy_preview

  abbrev pub listing_again : VaultPath → List VaultEntry → Bool → Task (List VaultEntry)
  listing_again base listing migrated = if migrated then list_entries base else return listing

  -- One round of the second loop of `reconcile_event`: the events of a directory.
  unfoldable pub reconcile_directory : VaultPath → Task (List (OperationEvent T))
  reconcile_directory base = list_entries base >>= λ before.
      migrate_legacy_index base before false >>= λ (migrated, moved).
      listing_again base before migrated >>= λ listing.
      persist_directory base (keep (includes s base) listing) false false >>= λ (_, written).
      return (moved ++ written)

  unfoldable pub reconcile_directories : List VaultPath → Task (List (OperationEvent T))
  reconcile_directories [] = return []
  reconcile_directories (base ∷ bases) = reconcile_directory base >>= λ events.
      reconcile_directories bases >>= λ more. return (events ++ more)

  -- `IndexService::reconcile_event`
  unfoldable pub reconcile_event : OperationEvent T → Task (List (OperationEvent T))
  reconcile_event event = look (λ w. affected s (host w) event.paths []) >>= reconcile_directories

  -- `IndexService::reconcile`, of `MaintainsIndexes`
  unfoldable pub reconcile :
      (F → Text)
      → (IndexServiceError R E F → Text)
      → OperationEvent T
      → Exec W OperationWarning (List (OperationEvent T))
  reconcile frontmatter_code to_string event w =
      mapped (warning_from frontmatter_code to_string) (reconcile_event event) w
