-- ===== src/Vault/Set.antt =====
-- `VaultSet` (crates/contextos-core/src/path.rs): the roots of the startup configuration.
pub mod Distinct
pub mod Names
use context_os_mcp.Prelude.{
  ◌>>=◌, ℕ, Option, none, some, List, [], ◌∷◌, Text, ◌==◌, nat_eq, list_eq, if◌then◌else◌, ltb,
  Result, ok, err, ◌>>◌, length, get_elem?, position, contains, not, to_ascii_lowercase,
  eq_ignore_ascii_case,
}
use context_os_mcp.FilePath.{FilePath, component_eq}
use context_os_mcp.Vault.Error.{PathError, no_roots, too_many_roots, duplicate_root, duplicate_name}
use context_os_mcp.Vault.Root.{VaultRootId, VaultRoot, id_try_from, u32_limit}

pub record VaultSet : Type 0 where
  pub roots : List VaultRoot

-- The loop over the roots; the two hash sets are the paths and the lower-case names seen.
unfoldable pub check_unique :
    List FilePath → List Text → List VaultRoot → Result PathError (Unit {0})
check_unique paths names [] = ok tt
check_unique paths names (root ∷ roots) =
    let rest = check_unique (root.resolved ∷ paths) (to_ascii_lowercase root.name ∷ names) roots in
    if contains root.resolved paths
    then err (duplicate_root root.resolved)
    else if contains (to_ascii_lowercase root.name) names
    then err (duplicate_name root.name)
    else rest

-- `VaultSet::try_from`
unfoldable pub try_from : List VaultRoot → Result PathError VaultSet
unfolding ◌>>=◌
try_from value =
    if length value == 0
    then err no_roots
    else if not (ltb (length value) u32_limit)
    then err (too_many_roots (length value))
    else do check_unique [] [] value; ok (record { roots = value })

-- `VaultSet::len`, `VaultSet::is_empty`
unfoldable pub len : VaultSet → ℕ
len s = length s.roots

-- `VaultSet::root`; no identifier is too large for `usize`.
unfoldable pub root : VaultSet → VaultRootId → Option VaultRoot
root s id = get_elem? s.roots id.value

abbrev pub with_id :
    Result PathError VaultRootId → Option VaultRoot → Option (VaultRootId × VaultRoot)
with_id (ok id) (some r) = some (id, r)
with_id _ _ = none

abbrev pub at_index : List VaultRoot → Option ℕ → Option (VaultRootId × VaultRoot)
at_index roots none = none
at_index roots (some index) = with_id (id_try_from index) (get_elem? roots index)

-- `VaultSet::root_by_name`
unfoldable pub root_by_name : VaultSet → Text → Option (VaultRootId × VaultRoot)
root_by_name s name = at_index s.roots (position (λ r. eq_ignore_ascii_case r.name name) s.roots)
