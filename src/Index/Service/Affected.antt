-- ===== src/Index/Service/Affected.antt =====
-- The directories that an event affects are not excluded.
use context_os_mcp.Prelude.{
  All, Bool, Ensures, Ensures-bind, Ensures-if, Ensures-ok, List, [], arith, false, if◌then◌else◌,
  list_eq, nat_eq, option_eq, refl, reverse, true, ◌++◌, ◌∷◌, ◌≡◌,
}
use context_os_mcp.FilePath.{FilePath, root_dir, cur_dir, parent_dir, normal}
use context_os_mcp.Host.{Host}
use context_os_mcp.Vault.Confine.{VaultPath}
use context_os_mcp.Index.Service.{
  IndexService, is_excluded, push_directory, push_ancestors, push_itself, push_path, affected,
}

module _ {W R E T : Type 0} (s : IndexService W R E T) where
  abbrev pub IsManaged : VaultPath → Type 0
  IsManaged base = is_excluded s base.relative ≡ false

  All-append : (a b : List VaultPath) → All IsManaged a → All IsManaged b → All IsManaged (a ++ b)
  All-append [] b p q = q
  All-append (x ∷ a) b (h, p) q = (h, All-append a b p q)

  push-IsManaged :
      (guard : Bool) (bases : List VaultPath) (base : VaultPath)
      → All IsManaged bases
      → (guard ≡ true → IsManaged base)
      → All IsManaged (if guard then bases ++ base ∷ [] else bases)
  push-IsManaged true bases base p h = All-append bases (base ∷ []) p (h refl, tt)
  push-IsManaged false bases base p h = p

  push_directory-IsManaged :
      (bases : List VaultPath) (base : VaultPath)
      → All IsManaged bases
      → All IsManaged (push_directory s bases base)
  push_directory-IsManaged bases base p = push-IsManaged _ bases base p (λ h. ground (arith, h))

  push_itself-IsManaged :
      (host : Host) (path : VaultPath) (bases : List VaultPath)
      → All IsManaged bases
      → All IsManaged (push_itself s host path bases)
  push_itself-IsManaged host path bases p = push-IsManaged _ bases path p (λ h. ground (arith, h))

  module _ {F : Type 0} where
    push_ancestors-IsManaged :
        (host : Host) (up : FilePath) (bases : List VaultPath)
        → All IsManaged bases
        → Ensures (All IsManaged) (push_ancestors s {F = F} host up bases)
    unfolding push_ancestors
    push_ancestors-IsManaged host [] bases p = Ensures-ok _ p
    push_ancestors-IsManaged host (root_dir ∷ up) bases p = Ensures-ok _ p
    push_ancestors-IsManaged host (cur_dir ∷ up) bases p =
        Ensures-bind _ _
          (λ base h. push_ancestors-IsManaged host up _ (push_directory-IsManaged bases base p))
    push_ancestors-IsManaged host (parent_dir ∷ up) bases p =
        Ensures-bind _ _
          (λ base h. push_ancestors-IsManaged host up _ (push_directory-IsManaged bases base p))
    push_ancestors-IsManaged host (normal name ∷ up) bases p =
        Ensures-bind _ _
          (λ base h. push_ancestors-IsManaged host up _ (push_directory-IsManaged bases base p))

    push_path-IsManaged :
        (host : Host) (path : VaultPath) (bases : List VaultPath)
        → All IsManaged bases
        → Ensures (All IsManaged) (push_path s {F = F} host path bases)
    push_path-IsManaged host path bases p =
        Ensures-if _ _ _
          (push_ancestors-IsManaged host (reverse path.relative) _
            (push_itself-IsManaged host path bases p))
          (Ensures-ok _ p)

    pub affected-IsManaged :
        (host : Host) (paths bases : List VaultPath)
        → All IsManaged bases
        → Ensures (All IsManaged) (affected s {F = F} host paths bases)
    unfolding affected
    affected-IsManaged host [] bases p = Ensures-ok _ p
    affected-IsManaged host (path ∷ paths) bases p = Ensures-bind _ _ (λ more h.
        affected-IsManaged host paths more ((push_path-IsManaged host path bases p).at more h))
