-- ===== src/Vault/Confine/Named.antt =====
-- The `name://path` form: which root it selects, and that no input makes the code index a root
-- that is not there.
use context_os_mcp.Prelude.{
  All, Bool, List, Option, Text, arith, codes, eq_ignore_ascii_case, get_elem?, none, ok, position,
  refl, some, some-injective, subst, sym, true, ℕ, ◌>>=◌, ◌∙◌, ◌≡◌,
}
use context_os_mcp.Host.{Host, IsLawful}
use context_os_mcp.Vault.Root.{VaultRootId, VaultRoot, IsRoot, id_try_from, is_valid_scheme_token}
use context_os_mcp.Vault.Set.{VaultSet, root_by_name, at_index}
use context_os_mcp.Vault.Set.Names.{position_from_sound}
use context_os_mcp.Vault.Confine.{
  VaultPath, typed, named_prefix, prefix_root, split_once, by_prefix, try_from,
}
use context_os_mcp.Vault.Confine.Authorised.{resolve_within_named_root-IsConfined}

at_index_sound :
    (roots : List VaultRoot) (k : ℕ) {id : VaultRootId} {r : VaultRoot}
    → at_index roots (some k) ≡ some (id, r)
    → (k ≡ id.value) × (get_elem? roots k ≡ some r)
unfolding id_try_from
at_index_sound roots k h = ground arith

-- `root_by_name` returns a root of the set, under its own index, with the name asked for.
pub root_by_name_sound :
    (roots : VaultSet) (name : Text) {id : VaultRootId} {r : VaultRoot}
    → root_by_name roots name ≡ some (id, r)
    → (get_elem? roots.roots id.value ≡ some r) × (eq_ignore_ascii_case r.name name ≡ true)
unfolding root_by_name
root_by_name_sound roots name {id} {r} h = go (position named roots.roots) refl h
  where
    named : VaultRoot → Bool
    named q = eq_ignore_ascii_case q.name name

    go :
        (o : Option ℕ)
        → position named roots.roots ≡ o
        → at_index roots.roots o ≡ some (id, r)
        → (get_elem? roots.roots id.value ≡ some r) × (eq_ignore_ascii_case r.name name ≡ true)
    go none e a = absurd (cc)
    go (some k) e a =
        let (same, at_k) = at_index_sound roots.roots k {id = id} {r = r} a in
        let (j, x, i, g, q) = position_from_sound named 0 roots.roots {k = k} e in
        let here : get_elem? roots.roots j ≡ some r =
          subst (λ i. get_elem? roots.roots i ≡ some r) (omega arith) at_k in
        let one : x ≡ r = some-injective _ _ (sym g ∙ here) in
        (
          subst (λ i. get_elem? roots.roots i ≡ some r) same at_k,
          subst (λ (y : VaultRoot). eq_ignore_ascii_case y.name name ≡ true) one q,
        )

pub named_prefix-split :
    (raw : Text) (roots : VaultSet) (name remainder : Text)
    → split_once (codes "://") raw ≡ some (name, remainder)
    → is_valid_scheme_token name ≡ true
    → named_prefix raw roots ≡ prefix_root (root_by_name roots name) name remainder
unfolding named_prefix
named_prefix-split raw roots name remainder split token = rw (split, token)

-- On a lawful host and over roots in the form that construction gives them, a path with a name
-- prefix that is a scheme token resolves, if at all, inside a root that has that name up to
-- ASCII case.
pub try_from-named :
    (host : Host) (roots : VaultSet) (raw name remainder : Text) (path : VaultPath)
    → IsLawful host
    → All IsRoot roots.roots
    → split_once (codes "://") raw ≡ some (name, remainder)
    → is_valid_scheme_token name ≡ true
    → try_from host roots raw ≡ ok path
    → (r : VaultRoot) × (get_elem? roots.roots path.root.value ≡ some r)
      × (eq_ignore_ascii_case r.name name ≡ true)
unfolding try_from
try_from-named host roots raw name remainder path law valid split token h =
    go (root_by_name roots name) refl
      (rw (named_prefix-split raw roots name remainder split token) at h)
  where
    go :
        (o : Option (VaultRootId × VaultRoot))
        → root_by_name roots name ≡ o
        → (typed (prefix_root o name remainder) >>= by_prefix host roots raw) ≡ ok path
        → (r : VaultRoot) × (get_elem? roots.roots path.root.value ≡ some r)
          × (eq_ignore_ascii_case r.name name ≡ true)
    go none e p = absurd (unfold ◌>>=◌ in cc)
    go (some (id, r)) e p =
        let (at_id, named) = root_by_name_sound roots name {id = id} {r = r} e in
        let inside =
          (resolve_within_named_root-IsConfined host law roots valid id.value remainder).at path
            (unfold ◌>>=◌ in p) in
        (r, subst (λ i. get_elem? roots.roots i ≡ some r) (sym inside.1) at_id, named)
