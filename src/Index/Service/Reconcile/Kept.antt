-- ===== src/Index/Service/Reconcile/Kept.antt =====
-- What the index service writes: only index files of its own, gated by what it read.
use context_os_mcp.Prelude.{
  All, Bool, Bool-cases, List, Option, Result, Text, [], any, ap, codes, false, inl, inr, list_eq,
  map_err-eq-ok, nat_eq, ok, ok-injective, option_eq, refl, some, subst, sym, true, ℕ, ◌&&◌, ◌==◌,
  ◌∷◌, ◌≡◌,
}
use context_os_mcp.Exec.Kept.{
  Returned, Keeps, bind-Keeps, if-Keeps, mapped-Returned, returned_value,
}
use context_os_mcp.Index.Service.Reconcile.Allowed.{child_of, IsKept}
use context_os_mcp.Host.{Host}
use context_os_mcp.Operation.{OperationEvent}
use context_os_mcp.Vault.Confine.{VaultPath}
use context_os_mcp.Index.Block.{IndexEntry}
use context_os_mcp.Index.Document.{index_document}
use context_os_mcp.Index.Service.{
  IndexService, VaultText, VaultEntry, is_excluded, read_failed, index_failed,
}
use context_os_mcp.Index.Service.Affected.{affected-IsManaged}
use context_os_mcp.Index.Service.Reconcile.{
  is_named, content_of, directory_name, read, list_entries, migrate_legacy_index, source_of,
  is_file, is_markdown, index_rows, index_mutation, save_index, existing_path, persist_directory,
  reconcile_directory, reconcile_directories, reconcile_event,
}

module _ {W R E T F : Type 0} (host : W → Host) (s : IndexService W R E T)
    (frontmatter : Text → Result F (Option Text × Text)) (to_lowercase : Text → Text)
    (to_uppercase : ℕ → Text) where
  seen_there :
      (base index_path path : VaultPath) (existing : Option VaultText) (dry_run preview : Bool)
      → Returned
          (existing_path host s frontmatter to_lowercase to_uppercase base index_path
            (preview && dry_run))
          path
      → Returned (s.read_optional_text path) existing
      → dry_run ≡ false
      → Returned (s.read_optional_text index_path) existing
  seen_there base index_path path existing true preview at seen wet = absurd (cc)
  seen_there base index_path path existing false true (w, w', h) seen wet =
      subst (λ q. Returned (s.read_optional_text q) existing) (sym (ok-injective (ap (λ p. p.0) h)))
        seen
  seen_there base index_path path existing false false (w, w', h) seen wet =
      subst (λ q. Returned (s.read_optional_text q) existing) (sym (ok-injective (ap (λ p. p.0) h)))
        seen

  module _ (dry_run : Bool) (Q : VaultPath → Type 0) (P : W → Type 0)
      (k : IsKept host s frontmatter to_lowercase to_uppercase dry_run Q P) where
    read-Keeps :
        (path : VaultPath) → Keeps P (read host s frontmatter to_lowercase to_uppercase path)
    read-Keeps path w p = k.reads path w p

    pub list_entries-Keeps :
        (path : VaultPath)
        → Keeps P (list_entries host s frontmatter to_lowercase to_uppercase path)
    list_entries-Keeps path w p = k.lists path w p

    source_of-Keeps :
        (base : VaultPath) (entry : VaultEntry)
        → Keeps P (source_of host s frontmatter to_lowercase to_uppercase base entry)
    source_of-Keeps base entry =
        if-Keeps P (is_file entry.kind && is_markdown entry) _ _
          (bind-Keeps P _ _ (λ w p. p)
            (λ path _. bind-Keeps P _ _ (read-Keeps path) (λ text _ w p. p)))
          (λ w p. p)

    index_rows-Keeps :
        (base : VaultPath) (entries : List VaultEntry)
        → Keeps P (index_rows host s frontmatter to_lowercase to_uppercase base entries)
    unfolding index_rows
    index_rows-Keeps base [] = λ w p. p
    index_rows-Keeps base (entry ∷ entries) =
        bind-Keeps P _ _ (source_of-Keeps base entry) (λ source _.
          bind-Keeps P _ _ (λ w p. p)
            (λ summary _. bind-Keeps P _ _ (index_rows-Keeps base entries) (λ rows _ w p. p)))

    pub migrate_legacy_index-Keeps :
        (base : VaultPath) (listing : List VaultEntry)
        → Q base
        → Returned (s.list base) listing
        → Keeps P
            (migrate_legacy_index host s frontmatter to_lowercase to_uppercase base listing dry_run)
    unfolding migrate_legacy_index
    migrate_legacy_index-Keeps base listing managed seen =
        elim (Bool-cases (any (is_named (codes "_index.md")) listing)) [
          | inr none_there ↦ rw none_there (λ w p. p)
          | inl legacy ↦ elim (Bool-cases (any (is_named (codes "index.md")) listing)) [
            | inl taken ↦ rw legacy (rw taken (λ w p. p))
            | inr free ↦ rw legacy (
                rw free (elim (Bool-cases dry_run) [
                  | inl dry ↦ rw dry (λ w p. p)
                  | inr wet ↦ rw wet (
                      bind-Keeps P _ _ (λ w p. p)
                        (λ source source_at.
                          bind-Keeps P _ _ (λ w p. p)
                            (λ destination destination_at.
                              bind-Keeps P _ _
                                (k.moves wet _ (record {
                                  base = base;
                                  managed = managed;
                                  source = source_at;
                                  destination = destination_at;
                                  listing = listing;
                                  seen = seen;
                                  legacy = legacy;
                                  free = free;
                                  of_service = refl;
                                }))
                                (λ result _ w p. p))))
                ]))
          ]
        ]

    save_index-Keeps :
        (base path : VaultPath) (existing : Option VaultText) (rows : List IndexEntry)
        (content : Text) (preview : Bool)
        → Q base
        → Returned
            (child_of host s frontmatter to_lowercase to_uppercase base (codes "index.md"))
            path
        → (dry_run ≡ false → Returned (s.read_optional_text path) existing)
        → index_document to_lowercase to_uppercase (content_of existing) (directory_name base) rows
          ≡ ok content
        → Keeps P (
            save_index host s frontmatter to_lowercase to_uppercase path existing content dry_run
              preview)
    unfolding save_index
    save_index-Keeps base path existing rows content preview managed at seen rendered =
        elim (Bool-cases (content_of existing == some content)) [
          | inl same ↦ rw same (λ w p. p)
          | inr changed ↦ rw changed (elim (Bool-cases dry_run) [
            | inl dry ↦ rw dry (λ w p. p)
            | inr wet ↦ rw wet (
                bind-Keeps P _ _
                  (k.writes wet
                    (index_mutation host s frontmatter to_lowercase to_uppercase path existing
                      content)
                    (record {
                      base = base;
                      managed = managed;
                      at = at;
                      existing = existing;
                      seen = seen wet;
                      hash = refl;
                      rows = rows;
                      rendered = rendered;
                      changed = changed;
                      gated = refl;
                      of_service = refl;
                    }))
                  (λ result _ w p. p))
          ])
        ]

    -- If a property of the world is kept by reading and by such mutations, then bringing the index
    -- of a directory up to date keeps it.
    pub persist_directory-Keeps :
        (base : VaultPath) (entries : List VaultEntry) (preview : Bool)
        → Q base
        → Keeps P (
            persist_directory host s frontmatter to_lowercase to_uppercase base entries dry_run
              preview)
    unfolding persist_directory
    persist_directory-Keeps base entries preview managed =
        bind-Keeps P _ _ (λ w p. p)
          (λ index_path at.
            bind-Keeps P _ _ (if-Keeps P (preview && dry_run) _ _ (λ w p. p) (λ w p. p))
              (λ path path_at. bind-Keeps P _ _ (read-Keeps path) (λ existing seen.
                bind-Keeps P _ _ (index_rows-Keeps base _) (λ rows _.
                  bind-Keeps P _ _ (λ w p. p)
                    (λ content made.
                      save_index-Keeps base index_path existing rows content preview managed at
                        (seen_there base index_path path existing dry_run preview path_at
                          (mapped-Returned read_failed _ seen))
                        (map_err-eq-ok index_failed _ (returned_value _ made)))))))

  module _ (P : W → Type 0)
      (k : IsKept host s frontmatter to_lowercase to_uppercase false
        (λ base. is_excluded s base.relative ≡ false)
        P) where
    reconcile_directory-Keeps :
        (base : VaultPath)
        → is_excluded s base.relative ≡ false
        → Keeps P (reconcile_directory host s frontmatter to_lowercase to_uppercase base)
    unfolding reconcile_directory
    reconcile_directory-Keeps base managed =
        bind-Keeps P _ _ (list_entries-Keeps false _ P k base) (λ before seen.
          bind-Keeps P _ _
            (migrate_legacy_index-Keeps false _ P k base before managed
              (mapped-Returned read_failed _ seen))
            (λ (migrated, moved) _.
              bind-Keeps P _ _
                (if-Keeps P migrated _ _ (list_entries-Keeps false _ P k base) (λ w p. p))
                (λ listing _.
                  bind-Keeps P _ _ (persist_directory-Keeps false _ P k base _ false managed)
                    (λ written _ w p. p))))

    reconcile_directories-Keeps :
        (bases : List VaultPath)
        → All (λ base. is_excluded s base.relative ≡ false) bases
        → Keeps P (reconcile_directories host s frontmatter to_lowercase to_uppercase bases)
    unfolding reconcile_directories
    reconcile_directories-Keeps [] managed = λ w p. p
    reconcile_directories-Keeps (base ∷ bases) (managed, more) =
        bind-Keeps P _ _ (reconcile_directory-Keeps base managed)
          (λ events _. bind-Keeps P _ _ (reconcile_directories-Keeps bases more) (λ rest _ w p. p))

    -- If a property of the world is kept by reading, by moving a legacy index of a directory that is
    -- not excluded to the name index.md where its listing has none, and by writing index.md in such
    -- a directory, with the content to which the text read there is reconciled, different from that
    -- text, under its hash and unforced, then reconciling an event keeps the property, whether it
    -- succeeds or not.
    pub reconcile_event-Keeps :
        (event : OperationEvent T)
        → Keeps P (reconcile_event host s frontmatter to_lowercase to_uppercase event)
    unfolding reconcile_event
    reconcile_event-Keeps event =
        bind-Keeps P _ _ (λ w p. p)
          (λ bases (w, w', h).
            reconcile_directories-Keeps bases
              ((affected-IsManaged s (host w) event.paths [] tt).at bases (ap (λ p. p.0) h)))
