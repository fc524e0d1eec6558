-- ===== src/Index/Service/Reconcile/Allowed.antt =====
-- The mutations that the index service may make.
use context_os_mcp.Exec.{Exec}
use context_os_mcp.Prelude.{
  Bool, List, Option, Result, Text, any, codes, false, list_eq, nat_eq, ok, option_eq, some, true,
  ℕ, ◌==◌, ◌≡◌,
}
use context_os_mcp.Exec.Kept.{Returned, Keeps}
use context_os_mcp.Host.{Host}
use context_os_mcp.Operation.{WriteMutation, MoveMutation}
use context_os_mcp.Vault.Confine.{VaultPath}
use context_os_mcp.Index.Block.{IndexEntry}
use context_os_mcp.Index.Document.{index_document}
use context_os_mcp.Index.Service.{IndexService, IndexServiceError, VaultText, VaultEntry}
use context_os_mcp.Index.Service.Reconcile.{
  is_named, content_of, hash_of, directory_name, own, child,
}

module _ {W R E T F : Type 0} (host : W → Host) (s : IndexService W R E T)
    (frontmatter : Text → Result F (Option Text × Text)) (to_lowercase : Text → Text)
    (to_uppercase : ℕ → Text) where
  abbrev pub child_of : VaultPath → Text → Exec W (IndexServiceError R E F) VaultPath
  child_of = child host s frontmatter to_lowercase to_uppercase

  -- The write of an index file: of a directory with `Q`, to the reconciled content of the file that
  -- was read there, under the hash that was read.
  pub record IsIndexWrite (Q : VaultPath → Type 0) (m : WriteMutation) : Type 0 where
    pub base : VaultPath
    pub managed : Q base
    pub at : Returned (child_of base (codes "index.md")) m.path
    pub existing : Option VaultText
    pub seen : Returned (s.read_optional_text m.path) existing
    pub hash : m.expected_hash ≡ hash_of existing
    pub rows : List IndexEntry
    pub rendered :
        index_document to_lowercase to_uppercase (content_of existing) (directory_name base) rows
        ≡ ok m.content
    pub changed : (content_of existing == some m.content) ≡ false
    pub gated : m.force ≡ false
    pub of_service : m.origin ≡ own

  -- The move of a legacy index, in a directory with `Q`, to a name that its listing does not have.
  pub record IsLegacyMove (Q : VaultPath → Type 0) (m : MoveMutation) : Type 0 where
    pub base : VaultPath
    pub managed : Q base
    pub source : Returned (child_of base (codes "_index.md")) m.source
    pub destination : Returned (child_of base (codes "index.md")) m.destination
    pub listing : List VaultEntry
    pub seen : Returned (s.list base) listing
    pub legacy : any (is_named (codes "_index.md")) listing ≡ true
    pub free : any (is_named (codes "index.md")) listing ≡ false
    pub of_service : m.origin ≡ own

  -- A property that reading and, in a run that is not dry, such mutations keep.
  pub record IsKept (dry_run : Bool) (Q : VaultPath → Type 0) (P : W → Type 0) : Type 0 where
    pub reads : (path : VaultPath) → Keeps P (s.read_optional_text path)
    pub lists : (path : VaultPath) → Keeps P (s.list path)
    pub writes : dry_run ≡ false → (m : WriteMutation) → IsIndexWrite Q m → Keeps P (s.persist m)
    pub moves : dry_run ≡ false → (m : MoveMutation) → IsLegacyMove Q m → Keeps P (s.move_path m)
