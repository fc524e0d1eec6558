-- ===== src/Vault/Confine/Selector.antt =====
-- `VaultPath::try_from_vault_selector` on the name of a configured vault.
use mathlib.Core.List.{reverse-reverse}
use context_os_mcp.Prelude.{
  List, Text, [], all, append-nil, ap₂, arith, codes, eq_ignore_ascii_case, get_elem?,
  is_ascii_alphabetic, list_beq_iff, nat_eq, ok, refl, reverse, some, some-injective, starts_with,
  strip_prefix, strip_prefix-append, subst, suc, sym, to_ascii_lowercase, to_lower, true, zero, ℕ,
  ◌&&◌, ◌++◌, ◌+◌, ◌<◌, ◌==◌, ◌>>=◌, ◌∙◌, ◌∷◌, ◌≡◌,
}
use context_os_mcp.FilePath.{
  FilePath, normal, root_dir, cur_dir, component_eq, components, join, IsCanonical,
}
use context_os_mcp.Host.{Host, found}
use context_os_mcp.Vault.Root.{
  u32_limit, VaultRoot, IsRoot, is_valid_scheme_token, is_scheme_character,
}
use context_os_mcp.Vault.Set.Distinct.{IsVaultSet}
use context_os_mcp.Vault.Set.Names.{root_by_name-own, id_try_from-lt, get_elem?-lt-length}
use context_os_mcp.Vault.Lexical.{validate_lexical_input}
use context_os_mcp.Vault.Resolve.{push_all, climb, resolve_with_missing_suffix}
use context_os_mcp.Vault.Confine.{
  VaultPath, select, build, finish, split_once, resolve_within_named_root, try_from,
  try_from_vault_selector,
}
use context_os_mcp.Vault.Confine.Named.{named_prefix-split}

-- Case does not matter to the characters of a scheme token.
scheme_character-same :
    (a b : ℕ) → to_lower a ≡ to_lower b → is_scheme_character a ≡ is_scheme_character b
scheme_character-same a b h = ground arith

alphabetic-same :
    (a b : ℕ) → to_lower a ≡ to_lower b → is_ascii_alphabetic a ≡ is_ascii_alphabetic b
alphabetic-same a b h = ground arith

all-same :
    (a b : Text)
    → to_ascii_lowercase a ≡ to_ascii_lowercase b
    → all is_scheme_character a ≡ all is_scheme_character b
all-same [] [] h = refl
all-same [] (y ∷ b) h = cc
all-same (x ∷ a) [] h = cc
all-same (x ∷ a) (y ∷ b) h = ap₂ ◌&&◌ (scheme_character-same x y (cc)) (all-same a b (cc))

token-same :
    (a b : Text)
    → to_ascii_lowercase a ≡ to_ascii_lowercase b
    → is_valid_scheme_token a ≡ is_valid_scheme_token b
unfolding is_valid_scheme_token
token-same [] [] h = refl
token-same [] (y ∷ b) h = cc
token-same (x ∷ a) [] h = cc
token-same (x ∷ a) (y ∷ b) h = ap₂ ◌&&◌ (alphabetic-same x y (cc)) (all-same a b (cc))

token-characters :
    (name : Text) → is_valid_scheme_token name ≡ true → all is_scheme_character name ≡ true
unfolding is_valid_scheme_token
token-characters [] h = refl
token-characters (c ∷ name) h = ground arith

split_once-token :
    (name rest : Text)
    → all is_scheme_character name ≡ true
    → split_once (codes "://") (name ++ (codes "://" ++ rest)) ≡ some (name, rest)
unfolding split_once
split_once-token [] rest h = refl
split_once-token (c ∷ name) rest h = ground (arith, split_once-token name rest)

climb-found :
    (host : Host) (candidate rev q : FilePath)
    → host.symlink_metadata (reverse rev) ≡ found
    → host.canonicalize (reverse rev) ≡ some q
    → climb host candidate rev [] ≡ ok q
unfolding climb push_all ◌>>=◌
climb-found host candidate (normal name ∷ up) q f c = rw (f, c)
climb-found host candidate [] q f c = rw (f, c)
climb-found host candidate _ q f c = rw (f, c)

resolve-found :
    (host : Host) (p q : FilePath)
    → host.symlink_metadata p ≡ found
    → host.canonicalize p ≡ some q
    → resolve_with_missing_suffix host p ≡ ok q
unfolding resolve_with_missing_suffix
resolve-found host p q f c =
    climb-found host p (reverse p) q (rw reverse-reverse f) (rw reverse-reverse c)

select-only :
    (index j only : ℕ) (resolved : FilePath) (rs : List VaultRoot) (r : VaultRoot)
    → only ≡ index + j
    → get_elem? rs j ≡ some r
    → starts_with resolved r.resolved ≡ true
    → select index (some only) resolved rs ≡ some (only, r)
unfolding select
select-only index j only resolved [] r e g s = cc
select-only index zero only resolved (x ∷ rs) r e g s =
    let same = some-injective x r g in
    let here : index ≡ only = omega arith in
    let first : (index == only && starts_with resolved x.resolved) ≡ true =
      ground
        (arith, subst (λ (q : VaultRoot). starts_with resolved q.resolved ≡ true) (sym same) s) in
    rw first (λ i. some (here i, same i))
select-only index (suc j) only resolved (x ∷ rs) r e g s =
    ground (arith, select-only (index + 1) j only resolved rs r (omega arith) g s)

strip_prefix_self : (p : FilePath) → strip_prefix p p ≡ some []
strip_prefix_self p = ground (arith, strip_prefix-append p [], append-nil p)

join_dot : (p : FilePath) → IsCanonical p → join p (cur_dir ∷ []) ≡ p
unfolding join
join_dot (root_dir ∷ p) c = rw append-nil
join_dot _ c = absurd c

select_self :
    (index : ℕ) (roots : List VaultRoot) (r : VaultRoot)
    → get_elem? roots index ≡ some r
    → select 0 (some index) r.resolved roots ≡ some (index, r)
select_self index roots r g =
    select-only 0 index index r.resolved roots r (omega arith) g
      (ground (arith, strip_prefix_self r.resolved))

-- The root's directory is still where it was at startup.
pub record IsPresent (host : Host) (r : VaultRoot) : Type 0 where
  pub exists : host.symlink_metadata r.resolved ≡ found
  pub resolves : host.canonicalize r.resolved ≡ some r.resolved
  pub utf8 : host.from_path_buf r.resolved ≡ some r.resolved
  pub empty_utf8 : host.from_path_buf [] ≡ some []

module _ (host : Host) (roots : List VaultRoot) (v : IsVaultSet roots) (index : ℕ)
    (r : VaultRoot) where
  abbrev whole_vault : VaultPath
  whole_vault = record { root = record { value = index }; relative = []; absolute = r.resolved }

  build_self :
      get_elem? roots index ≡ some r
      → IsPresent host r
      → build host r.resolved (index, r) ≡ ok whole_vault
  unfolding build ◌>>=◌
  build_self g h =
      let fits : index < u32_limit =
        omega (arith, get_elem?-lt-length roots index {x = r} g, v.fits) in
      rw (strip_prefix_self r.resolved, h.empty_utf8, h.utf8, id_try_from-lt index fits)

  finish_self :
      get_elem? roots index ≡ some r
      → IsPresent host r
      → finish host (record { roots = roots }) r.resolved (some index) (some index) ≡ ok whole_vault
  unfolding finish ◌>>=◌
  finish_self g h =
      rw (resolve-found host r.resolved r.resolved h.exists h.resolves, select_self index roots r g)
        (build_self g h)

  -- The remainder `.` behind the name's prefix is the root itself.
  named_root_self :
      get_elem? roots index ≡ some r
      → IsRoot r
      → IsPresent host r
      → resolve_within_named_root host (record { roots = roots }) index (codes ".") ≡ ok whole_vault
  unfolding resolve_within_named_root validate_lexical_input components join ◌>>=◌
  named_root_self g root h = rw (g, join_dot r.resolved root.canonical, finish_self g h)

  -- In a valid set, a vault selector that spells a configured vault's name, in any case, selects
  -- that vault's root directory while the directory is present and canonical.
  pub selector_selects_root :
      (raw : Text)
      → get_elem? roots index ≡ some r
      → eq_ignore_ascii_case r.name raw ≡ true
      → IsRoot r
      → IsPresent host r
      → try_from_vault_selector host (record { roots = roots }) raw ≡ ok whole_vault
  unfolding try_from_vault_selector try_from ◌>>=◌
  selector_selects_root raw g same root h =
      let token : is_valid_scheme_token raw ≡ true =
        sym (token-same r.name raw ((list_beq_iff _ _).0 same)) ∙ root.named in
      let own = (root_by_name-own roots v index r raw g same).0 in
      let split = split_once-token raw (codes ".") (token-characters raw token) in
      let named =
        named_prefix-split (raw ++ codes "://.") (record { roots = roots }) raw (codes ".") split
          token in
      rw (own, named, own, named_root_self g root h)
