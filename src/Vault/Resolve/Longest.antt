-- ===== src/Vault/Resolve/Longest.antt =====
-- What the resolution returns: the canonical form of the longest ancestor that exists, and the
-- missing components behind it.
use context_os_mcp.Vault.Root.{ok_or-eq-ok}
use context_os_mcp.Vault.Error.{PathError}
use mathlib.Core.List.{reverse-reverse, reverse-cons}
use context_os_mcp.Prelude.{
  All, Ensures, Ensures-bind, Ensures-err, Ensures-ok, Result, [], append-nil, append_assoc, ok,
  refl, reverse, some, subst, sym, ◌++◌, ◌∙◌, ◌∷◌, ◌≡◌,
}
use context_os_mcp.FilePath.{parent_dir, cur_dir, root_dir, normal, FilePath, IsNormal, IsCanonical}
use context_os_mcp.FilePath.Laws.{join-normals, IsCanonical-append}
use context_os_mcp.Host.{failed, Inspection, IsLawful, Host, found, not_found}
use context_os_mcp.Vault.Resolve.{resolve_with_missing_suffix, climb, at_ancestor, push_all}

pub push_all-append :
    (base suffix : FilePath)
    → IsCanonical base
    → All IsNormal suffix
    → push_all base suffix ≡ base ++ suffix
unfolding push_all
push_all-append base [] c n = sym (append-nil base)
push_all-append base (x ∷ suffix) c n =
    let one : All IsNormal (x ∷ []) = (n.0, tt) in
    rw (join-normals base (x ∷ []) c one) (
      push_all-append (base ++ x ∷ []) suffix (IsCanonical-append base (x ∷ []) c one) n.1
      ∙ append_assoc base (x ∷ []) suffix)

-- Each path from `base` on, one component of `missing` longer each time, is absent.
abbrev pub Absent : Host → FilePath → FilePath → Type 0
Absent host base [] = Unit
Absent host base (c ∷ missing) =
    (host.symlink_metadata (base ++ c ∷ []) ≡ not_found) × Absent host (base ++ c ∷ []) missing

-- `result` is made from `candidate`: an ancestor that exists, in canonical form, and the plain
-- components behind it, with nothing existing at or below the first of them on the way.
pub record IsLongest (host : Host) (candidate result : FilePath) : Type 0 where
  pub ancestor : FilePath
  pub missing : FilePath
  pub base : FilePath
  pub splits : candidate ≡ ancestor ++ missing
  pub exists : host.symlink_metadata ancestor ≡ found
  pub resolves : host.canonicalize ancestor ≡ some base
  pub plain : All IsNormal missing
  pub absent : Absent host ancestor missing
  pub is_result : result ≡ base ++ missing

module _ (host : Host) (law : IsLawful host) (candidate : FilePath) where
  at_ancestor-found :
      (rev suffix : FilePath) (climb : Result PathError FilePath) (m : Inspection)
      → host.symlink_metadata (reverse rev) ≡ m
      → candidate ≡ reverse rev ++ suffix
      → All IsNormal suffix
      → Absent host (reverse rev) suffix
      → (m ≡ not_found → Ensures (IsLongest host candidate) climb)
      → Ensures (IsLongest host candidate) (at_ancestor host m (reverse rev) suffix climb)
  unfolding at_ancestor
  at_ancestor-found rev suffix climb found e splits plain absent more = Ensures-bind _ _ λ base c.
      let resolves = ok_or-eq-ok _ _ c in
      Ensures-ok _ (record {
        ancestor = reverse rev;
        missing = suffix;
        base = base;
        splits = splits;
        exists = e;
        resolves = resolves;
        plain = plain;
        absent = absent;
        is_result = push_all-append base suffix (law.canonical _ _ resolves) plain;
      })
  at_ancestor-found rev suffix climb not_found e splits plain absent more = more refl
  at_ancestor-found rev suffix climb failed e splits plain absent more = Ensures-err _

  climb-IsLongest :
      (rev suffix : FilePath)
      → candidate ≡ reverse rev ++ suffix
      → All IsNormal suffix
      → Absent host (reverse rev) suffix
      → Ensures (IsLongest host candidate) (climb host candidate rev suffix)
  unfolding climb
  climb-IsLongest (normal name ∷ up) suffix splits plain absent =
      at_ancestor-found (normal name ∷ up) suffix _ _ refl splits plain absent λ gone.
        let turn = reverse-cons (normal name) up in
        climb-IsLongest up (normal name ∷ suffix)
          (splits ∙ rw turn (append_assoc (reverse up) (normal name ∷ []) suffix)) (tt, plain)
          (
            subst (λ p. host.symlink_metadata p ≡ not_found) turn gone,
            subst (λ p. Absent host p suffix) turn absent,
          )
  climb-IsLongest [] suffix splits plain absent =
      at_ancestor-found [] suffix _ _ refl splits plain absent λ _. Ensures-err _
  climb-IsLongest (root_dir ∷ up) suffix splits plain absent =
      at_ancestor-found (root_dir ∷ up) suffix _ _ refl splits plain absent λ _. Ensures-err _
  climb-IsLongest (cur_dir ∷ up) suffix splits plain absent =
      at_ancestor-found (cur_dir ∷ up) suffix _ _ refl splits plain absent λ _. Ensures-err _
  climb-IsLongest (parent_dir ∷ up) suffix splits plain absent =
      at_ancestor-found (parent_dir ∷ up) suffix _ _ refl splits plain absent λ _. Ensures-err _

  -- On a lawful host, a path that resolves is the canonical form of an ancestor that exists,
  -- followed by the remaining components, all plain names and each absent below that ancestor.
  pub resolve_with_missing_suffix-IsLongest :
      (result : FilePath)
      → resolve_with_missing_suffix host candidate ≡ ok result
      → IsLongest host candidate result
  unfolding resolve_with_missing_suffix
  resolve_with_missing_suffix-IsLongest result h =
      (climb-IsLongest (reverse candidate) [] (rw reverse-reverse (sym (append-nil candidate))) tt
          tt).at
        result h

  pub resolve_with_missing_suffix-IsCanonical :
      (result : FilePath)
      → resolve_with_missing_suffix host candidate ≡ ok result
      → IsCanonical result
  resolve_with_missing_suffix-IsCanonical result h =
      let l = resolve_with_missing_suffix-IsLongest result h in
      subst IsCanonical (sym l.is_result)
        (IsCanonical-append l.base l.missing (law.canonical _ _ l.resolves) l.plain)
