-- ===== src/Vault/Confine.antt =====
-- `VaultPath` and its construction from a tool's text (crates/contextos-core/src/path.rs).
pub mod Authorised
pub mod Named
pub mod Selector
pub mod Total
use context_os_mcp.Prelude.{
  Bool, List, Option, Result, Text, [], codes, err, false, get_elem?, if◌then◌else◌, length,
  list_eq, map_err, nat_eq, none, ok, position, some, starts_with, strip_prefix, true, ℕ, ◌&&◌,
  ◌++◌, ◌+◌, ◌==◌, ◌>>=◌, ◌>>◌, ◌∷◌,
}
use context_os_mcp.FilePath.{FilePath, component_eq, components, is_absolute, join}
use context_os_mcp.Host.{Host}
use context_os_mcp.Vault.Error.{
  PathError, ambiguous_root, outside_root, symlink_escape, prefix_mismatch, non_utf8,
  unknown_vault_name, empty_named_prefix_remainder,
}
use context_os_mcp.Vault.Root.{VaultRootId, VaultRoot, id_try_from, is_valid_scheme_token, ok_or}
use context_os_mcp.Vault.Set.{VaultSet, root_by_name}
use context_os_mcp.Vault.Lexical.{validate_lexical_input}
use context_os_mcp.Vault.Resolve.{resolve_with_missing_suffix}

pub record VaultPath : Type 0 where
  pub root : VaultRootId
  pub relative : FilePath
  pub absolute : FilePath

-- A refusal by a typed error, or the panic of an index out of bounds.
pub data Fault : Type 0 where
  refused : PathError → Fault
  panicked : Fault

abbrev pub typed {ℓ} : {A : Type ℓ} → Result PathError A → Result Fault A
typed = map_err refused

-- `roots.roots[index]`
abbrev pub indexed : Option VaultRoot → Result Fault VaultRoot
indexed (some r) = ok r
indexed none = err panicked

-- `str::split_once`: the text before and behind the first occurrence of the pattern.
abbrev pub before_rest : ℕ → Option (Text × Text) → Option (Text × Text)
before_rest c none = none
before_rest c (some (front, back)) = some (c ∷ front, back)

abbrev pub split_here : Option Text → Option (Text × Text) → Option (Text × Text)
split_here (some back) later = some ([], back)
split_here none later = later

unfoldable pub split_once : Text → Text → Option (Text × Text)
split_once pattern [] = split_here (strip_prefix pattern []) none
split_once pattern (c ∷ cs) =
    split_here (strip_prefix pattern (c ∷ cs)) (before_rest c (split_once pattern cs))

-- `named_prefix`
abbrev pub prefix_root :
    Option (VaultRootId × VaultRoot) → Text → Text → Result PathError (Option (ℕ × Text))
prefix_root (some (id, _)) name remainder = ok (some (id.value, remainder))
prefix_root none name remainder = err (unknown_vault_name name)

abbrev pub prefix_parts : VaultSet → Option (Text × Text) → Result PathError (Option (ℕ × Text))
prefix_parts roots none = ok none
prefix_parts roots (some (name, remainder)) =
    if is_valid_scheme_token name
    then prefix_root (root_by_name roots name) name remainder
    else ok none

unfoldable pub named_prefix : Text → VaultSet → Result PathError (Option (ℕ × Text))
named_prefix raw roots = prefix_parts roots (split_once (codes "://") raw)

-- The first root, in the order of the configuration, that is permitted and holds the path.
abbrev pub permitted : Option ℕ → ℕ → Bool
permitted none index = true
permitted (some only) index = index == only

unfoldable pub select : ℕ → Option ℕ → FilePath → List VaultRoot → Option (ℕ × VaultRoot)
select index restrict_to resolved [] = none
select index restrict_to resolved (r ∷ rs) =
    let rest = select (index + 1) restrict_to resolved rs in
    if permitted restrict_to index && starts_with resolved r.resolved then some (index, r) else rest

abbrev pub not_selected : Option ℕ → FilePath → PathError
not_selected (some _) candidate = symlink_escape candidate
not_selected none candidate = outside_root candidate

-- The end of `VaultPath::finish`, with a root selected.
unfoldable pub build : Host → FilePath → ℕ × VaultRoot → Result PathError VaultPath
build host resolved (index, r) = do
  rest ← ok_or (strip_prefix r.resolved resolved) (prefix_mismatch resolved)
  relative ← ok_or (host.from_path_buf rest) (non_utf8 rest)
  absolute ← ok_or (host.from_path_buf resolved) (non_utf8 resolved)
  root ← id_try_from index
  ok (record { root = root; relative = relative; absolute = absolute })

-- `VaultPath::finish`
unfoldable pub finish :
    Host → VaultSet → FilePath → Option ℕ → Option ℕ → Result PathError VaultPath
finish host roots candidate lexical_root restrict_to = do
  resolved ← resolve_with_missing_suffix host candidate
  selected ← ok_or (select 0 restrict_to resolved roots.roots) (not_selected lexical_root candidate)
  build host resolved selected

-- `VaultPath::resolve_within_named_root`
unfoldable pub resolve_within_named_root : Host → VaultSet → ℕ → Text → Result Fault VaultPath
resolve_within_named_root host roots index remainder = do
  r ← indexed (get_elem? roots.roots index)
  if remainder == [] then err (refused (empty_named_prefix_remainder r.name)) else (do
    typed (validate_lexical_input remainder)
    let supplied = components remainder
    typed (
        if is_absolute supplied
        then finish host roots supplied
            (if starts_with supplied r.resolved then some index else none) (some index)
        else finish host roots (join r.resolved supplied) (some index) (some index)))

-- The part of `VaultPath::try_from` without a name prefix.
unfoldable pub resolve_plain : Host → VaultSet → Text → Result Fault VaultPath
resolve_plain host roots raw = do
  typed (validate_lexical_input raw)
  let supplied = components raw
  if is_absolute supplied
      then typed (
          finish host roots supplied (position (λ r. starts_with supplied r.resolved) roots.roots)
            none)
      else if length roots.roots == 1
      then (do
        r ← indexed (get_elem? roots.roots 0)
        typed (finish host roots (join r.resolved supplied) (some 0) none))
      else err (refused (ambiguous_root supplied))

abbrev pub by_prefix : Host → VaultSet → Text → Option (ℕ × Text) → Result Fault VaultPath
by_prefix host roots raw (some (index, remainder)) =
    resolve_within_named_root host roots index remainder
by_prefix host roots raw none = resolve_plain host roots raw

-- `VaultPath::try_from(VaultPathInput)`
unfoldable pub try_from : Host → VaultSet → Text → Result Fault VaultPath
try_from host roots raw = do
  prefix ← typed (named_prefix raw roots)
  by_prefix host roots raw prefix

-- `VaultPath::try_from_vault_selector`
unfoldable pub try_from_vault_selector : Host → VaultSet → Text → Result Fault VaultPath
try_from_vault_selector host roots raw =
    try_from host roots
      (elim (root_by_name roots raw) [ some _ ↦ raw ++ codes "://." | none ↦ raw ])

-- `VaultSet::authorises`
abbrev pub holds : Option VaultRoot → VaultPath → Bool
holds none path = false
holds (some r) path =
    starts_with path.absolute r.resolved && path.absolute == join r.resolved path.relative

unfoldable pub authorises : VaultSet → VaultPath → Bool
authorises roots path = holds (get_elem? roots.roots path.root.value) path
