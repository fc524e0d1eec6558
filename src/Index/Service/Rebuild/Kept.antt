-- ===== src/Index/Service/Rebuild/Kept.antt =====
-- What a rebuild writes, and that a dry run writes nothing.
use context_os_mcp.Exec.{Exec}
use context_os_mcp.Prelude.{
  Bool, List, Option, Result, Text, [], none, not, nat_eq, some, suc, zero, ℕ, ◌&&◌, ◌==◌, ◌∷◌,
}
use context_os_mcp.Host.{Host}
use context_os_mcp.Vault.Confine.{VaultPath}
use context_os_mcp.Index.Service.{IndexService, IndexServiceError, VaultEntry, read_failed}
use context_os_mcp.Exec.Kept.{Keeps, bind-Keeps, if-Keeps, mapped-Returned}
use context_os_mcp.Index.Service.Reconcile.Allowed.{IsKept}
use context_os_mcp.Index.Service.Reconcile.Kept.{
  list_entries-Keeps, migrate_legacy_index-Keeps, persist_directory-Keeps,
}
use context_os_mcp.Index.Service.Rebuild.{
  RebuildState, no_state, if_some, visit_children, rebuild_directory, rebuild_report,
}

module _ {W R E T F : Type 0} (host : W → Host) (s : IndexService W R E T)
    (frontmatter : Text → Result F (Option Text × Text)) (to_lowercase : Text → Text)
    (to_uppercase : ℕ → Text) where
  abbrev AnyDirectory : VaultPath → Type 0
  AnyDirectory base = Unit {0}

  module _ (dry_run : Bool) (P : W → Type 0)
      (k : IsKept host s frontmatter to_lowercase to_uppercase dry_run AnyDirectory P) where
    abbrev State : Type 0
    State = RebuildState T

    if_some-Keeps :
        (next : State → Exec W (IndexServiceError R E F) (Option State)) (o : Option State)
        → ((state : State) → Keeps P (next state))
        → Keeps P (if_some host s frontmatter to_lowercase to_uppercase next o)
    if_some-Keeps next none h = λ w p. p
    if_some-Keeps next (some state) h = h state

    visit_children-Keeps :
        (visit : VaultPath → State → Exec W (IndexServiceError R E F) (Option State))
        (base : VaultPath) (entries : List VaultEntry)
        → ((path : VaultPath) (state : State) → Keeps P (visit path state))
        → (state : State)
        → Keeps P
            (visit_children host s frontmatter to_lowercase to_uppercase visit base entries state)
    unfolding visit_children
    visit_children-Keeps visit base [] h state = λ w p. p
    visit_children-Keeps visit base (entry ∷ entries) h state =
        bind-Keeps P _ _ (λ w p. p)
          (λ path _.
            bind-Keeps P _ _ (h path state)
              (λ o _. if_some-Keeps _ o (visit_children-Keeps visit base entries h)))

    rebuild_directory-Keeps :
        (depth : ℕ) (base : VaultPath) (state : State)
        → Keeps P (
            rebuild_directory host s frontmatter to_lowercase to_uppercase depth dry_run base state)
    unfolding rebuild_directory
    rebuild_directory-Keeps zero base state = λ w p. p
    rebuild_directory-Keeps (suc depth) base state =
        bind-Keeps P _ _
          (list_entries-Keeps host s frontmatter to_lowercase to_uppercase dry_run _ P k base)
          (λ before seen.
            bind-Keeps P _ _
              (migrate_legacy_index-Keeps host s frontmatter to_lowercase to_uppercase dry_run _ P k
                base before tt (mapped-Returned read_failed _ seen))
              (λ (legacy, moved) _.
                bind-Keeps P _ _
                  (if-Keeps P (legacy && not dry_run) _ _
                    (list_entries-Keeps host s frontmatter to_lowercase to_uppercase dry_run _ P k
                      base)
                    (λ w p. p))
                  (λ listing _.
                    bind-Keeps P _ _
                      (persist_directory-Keeps host s frontmatter to_lowercase to_uppercase dry_run
                        _ P k base _ legacy tt)
                      (λ written _.
                        visit_children-Keeps _ base _ (rebuild_directory-Keeps depth) _))))

    -- If a property of the world is kept by reading and, unless the run is dry, by moving a legacy
    -- index to the name index.md where the listing of its directory has none, and by writing
    -- index.md in a directory, with the content to which the text read there is reconciled,
    -- different from that text, under its hash and unforced, then a rebuild of a subtree, with any
    -- fuel, keeps the property, whether it succeeds or not. So a dry run keeps all that reading keeps.
    pub rebuild_report-Keeps :
        (depth : ℕ) (base : VaultPath)
        → Keeps P (rebuild_report host s frontmatter to_lowercase to_uppercase depth base dry_run)
    unfolding rebuild_report
    rebuild_report-Keeps depth base =
        if-Keeps P (not (base.root.value == s.root_id.value)) _ _ (λ w p. p)
          (rebuild_directory-Keeps depth base no_state)
