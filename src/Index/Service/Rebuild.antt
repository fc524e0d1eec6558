-- ===== src/Index/Service/Rebuild.antt =====
-- The rebuild of the indexes of a subtree: `rebuild`, `rebuild_report` and `rebuild_directory`
-- (crates/contextos-index/src/lib.rs). The fuel is the depth of the subtree.
pub mod Bounded
pub mod Kept
use context_os_mcp.Exec.{Exec, ◌>>=◌}
use context_os_mcp.Prelude.{
  Bool, List, Option, Result, Text, [], any, err, false, if◌then◌else◌, keep, length, list_eq,
  nat_eq, none, not, ok, option_eq, saturating_add, some, suc, zero, ℕ, ◌&&◌, ◌++◌, ◌==◌, ◌∷◌,
}
use context_os_mcp.FilePath.{components, join}
use context_os_mcp.Host.{Host}
use context_os_mcp.Operation.{OperationEvent}
use context_os_mcp.Vault.Confine.{VaultPath}
use context_os_mcp.Index.Service.{
  IndexService, IndexServiceError, VaultEntry, wrong_root, is_below, includes,
}
use context_os_mcp.Index.Service.Reconcile.{
  IndexWrite, unchanged, created, updated, is_file, child, list_entries, listing_again,
  migrate_legacy_index, persist_directory,
}

-- `RebuildState`; `IndexRebuildResult` has the same fields.
pub record RebuildState (T : Type 0) : Type 0 where
  pub directories_scanned : ℕ
  pub indexes_updated : ℕ
  pub indexes_created : ℕ
  pub skipped : ℕ
  pub events : List (OperationEvent T)

abbrev pub no_state : {T : Type 0} → RebuildState T
no_state = record {
  directories_scanned = 0;
  indexes_updated = 0;
  indexes_created = 0;
  skipped = 0;
  events = [];
}

abbrev pub count_write : {T : Type 0} → IndexWrite → RebuildState T → RebuildState T
count_write unchanged state = state
count_write created state = record state {
  indexes_created = saturating_add state.indexes_created 1;
}
count_write updated state = record state {
  indexes_updated = saturating_add state.indexes_updated 1;
}

-- The state after the index of a directory, with the events of its migration and of its write.
unfoldable pub count_directory :
    {T : Type 0} → ℕ → IndexWrite → List (OperationEvent T) → RebuildState T → RebuildState T
count_directory skipped write events state = count_write write (record state {
  directories_scanned = saturating_add state.directories_scanned 1;
  skipped = saturating_add state.skipped skipped;
  events = state.events ++ events;
})

module _ {W R E T F : Type 0} (host : W → Host) (s : IndexService W R E T)
    (frontmatter : Text → Result F (Option Text × Text)) (to_lowercase : Text → Text)
    (to_uppercase : ℕ → Text) where
  abbrev pub RebuildTask : Type 0 → Type 0
  RebuildTask A = Exec W (IndexServiceError R E F) A

  -- `IndexService::is_config_excluded`
  unfoldable pub is_config_excluded : VaultPath → VaultEntry → Bool
  is_config_excluded base entry =
      any (is_below s (join base.relative (components entry.name))) s.excluded

  abbrev pub visible : VaultPath → List VaultEntry → List VaultEntry
  visible base listing = keep (includes s base) listing

  abbrev pub directories_in : List VaultEntry → List VaultEntry
  directories_in entries = keep (λ entry. not (is_file entry.kind)) entries

  abbrev pub if_some :
      (RebuildState T → RebuildTask (Option (RebuildState T)))
      → Option (RebuildState T)
      → RebuildTask (Option (RebuildState T))
  if_some next none w = (ok none, w)
  if_some next (some state) w = next state w

  -- The loop over the directories in a directory.
  unfoldable pub visit_children :
      (VaultPath → RebuildState T → RebuildTask (Option (RebuildState T)))
      → VaultPath
      → List VaultEntry
      → RebuildState T
      → RebuildTask (Option (RebuildState T))
  visit_children visit base [] state = λ w. (ok (some state), w)
  visit_children visit base (entry ∷ entries) state =
      child host s frontmatter to_lowercase to_uppercase base entry.name >>= λ path.
      visit path state >>= if_some (visit_children visit base entries)

  -- `rebuild_directory`; nothing when the fuel is out
  unfoldable pub rebuild_directory :
      ℕ → Bool → VaultPath → RebuildState T → RebuildTask (Option (RebuildState T))
  rebuild_directory zero dry_run base state = λ w. (ok none, w)
  rebuild_directory (suc depth) dry_run base state =
      list_entries host s frontmatter to_lowercase to_uppercase base >>= λ before.
      migrate_legacy_index host s frontmatter to_lowercase to_uppercase base before dry_run
      >>= λ (has_legacy, moved).
          listing_again host s frontmatter to_lowercase to_uppercase base before
            (has_legacy && not dry_run)
          >>= λ listing.
              persist_directory host s frontmatter to_lowercase to_uppercase base
                (visible base listing) dry_run has_legacy
              >>= λ (write, written).
                  visit_children (rebuild_directory depth dry_run) base
                    (directories_in (visible base listing))
                    (count_directory (length (keep (is_config_excluded base) listing)) write
                      (moved ++ written) state)

  -- `rebuild_report`
  unfoldable pub rebuild_report : ℕ → VaultPath → Bool → RebuildTask (Option (RebuildState T))
  rebuild_report depth base dry_run =
      if not (base.root.value == s.root_id.value)
      then (λ w. (err wrong_root, w))
      else rebuild_directory depth dry_run base no_state

  abbrev pub events_in : Option (RebuildState T) → Option (List (OperationEvent T))
  events_in none = none
  events_in (some state) = some state.events

  -- `rebuild`
  unfoldable pub rebuild : ℕ → VaultPath → RebuildTask (Option (List (OperationEvent T)))
  rebuild depth base = rebuild_report depth base false >>= λ state. λ w. (ok (events_in state), w)
