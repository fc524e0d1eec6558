-- ===== src/Index/Service/Reached.antt =====
-- An event reaches its directories and all directories above its paths.
use mathlib.Core.List.{reverse-reverse, reverse-cons}
use context_os_mcp.Prelude.{
  All, Bool-cases, inl, inr, Ensures, Ensures-bind, Ensures-if, Ensures-ok, Ensures-weaken, List,
  [], any, ap, list_eq, nat_eq, ok, reverse, subst, sym, true, ◌++◌, ◌==◌, ◌∙◌, ◌∷◌, ◌≡◌,
}
use context_os_mcp.FilePath.{
  FilePath, Component, root_dir, cur_dir, parent_dir, normal, IsNormal, component_eq,
}
use context_os_mcp.Host.{Host}
use context_os_mcp.Vault.Confine.{VaultPath}
use context_os_mcp.Index.Service.{
  IndexService, path_from_relative, path_beq, push_directory, push_ancestors, push_itself,
  push_path, affected,
}
use context_os_mcp.Index.Service.Affected.{IsManaged, affected-IsManaged}
use context_os_mcp.Index.Service.Sources.{HasSource, affected-HasSource, reverse-between}
use context_os_mcp.Index.Service.Extends.{
  Extends, extends_refl, extends_trans, push-Extends, Holds, Holds-Extends, Holds-last,
}

module _ {W R E T : Type 0} (s : IndexService W R E T) where
  push_directory-Holds :
      (bases : List VaultPath) (base : VaultPath)
      → IsManaged s base
      → Holds (push_directory s bases base) base
  push_directory-Holds bases base managed = elim (Bool-cases (any (λ d. path_beq d base) bases)) [
    | inl there ↦ rw managed (rw there there)
    | inr new ↦ rw managed (rw new (Holds-last bases base))
  ]

  push_itself-Holds :
      (host : Host) (path : VaultPath) (bases : List VaultPath)
      → host.is_dir path.absolute ≡ true
      → IsManaged s path
      → Holds (push_itself s host path bases) path
  push_itself-Holds host path bases there managed = rw (there, managed) (Holds-last bases path)

  module _ (F : Type 0) (host : Host) where
    -- The directory at a relative path, which is reconciled unless it is excluded.
    abbrev pub Covers : List VaultPath → FilePath → Type 0
    Covers bases relative =
        (base : VaultPath) × (path_from_relative s {F = F} host relative ≡ ok base)
        × (IsManaged s base → Holds bases base)

    Covers-Extends :
        (bases out : List VaultPath) (relative : FilePath)
        → Extends bases out
        → Covers bases relative
        → Covers out relative
    Covers-Extends bases out relative e (base, at, held) =
        (base, at, λ managed. Holds-Extends bases out base e (held managed))

    push_parent-Extends :
        (up : FilePath) (bases : List VaultPath)
        → ((more : List VaultPath) → Ensures (Extends more) (push_ancestors s {F = F} host up more))
        → (base : VaultPath)
        → Ensures (Extends bases) (push_ancestors s {F = F} host up (push_directory s bases base))
    push_parent-Extends up bases further base =
        Ensures-weaken _ (λ out e. extends_trans bases _ out (push-Extends _ bases base) e)
          (further (push_directory s bases base))

    push_ancestors-Extends :
        (up : FilePath) (bases : List VaultPath)
        → Ensures (Extends bases) (push_ancestors s {F = F} host up bases)
    unfolding push_ancestors
    push_ancestors-Extends [] bases = Ensures-ok _ (extends_refl bases)
    push_ancestors-Extends (root_dir ∷ up) bases = Ensures-ok _ (extends_refl bases)
    push_ancestors-Extends (cur_dir ∷ up) bases =
        Ensures-bind _ _ (λ base _. push_parent-Extends up bases (push_ancestors-Extends up) base)
    push_ancestors-Extends (parent_dir ∷ up) bases =
        Ensures-bind _ _ (λ base _. push_parent-Extends up bases (push_ancestors-Extends up) base)
    push_ancestors-Extends (normal name ∷ up) bases =
        Ensures-bind _ _ (λ base _. push_parent-Extends up bases (push_ancestors-Extends up) base)

    -- The loop over the ancestors covers each of them.
    push_ancestors-Covers :
        (back : FilePath) (c : Component) (up : FilePath) (bases : List VaultPath)
        → All IsNormal back
        → IsNormal c
        → Ensures
            (λ out. Covers out (reverse up))
            (push_ancestors s {F = F} host (back ++ (c ∷ up)) bases)
    unfolding push_ancestors
    push_ancestors-Covers [] (normal name) up bases plain h = Ensures-bind _ _ (λ base at.
        Ensures-weaken _
          (λ out e. (
            base,
            at,
            λ managed. Holds-Extends _ out base e (push_directory-Holds bases base managed),
          ))
          (push_ancestors-Extends up (push_directory s bases base)))
    push_ancestors-Covers [] root_dir up bases plain h = absurd h
    push_ancestors-Covers [] cur_dir up bases plain h = absurd h
    push_ancestors-Covers [] parent_dir up bases plain h = absurd h
    push_ancestors-Covers (normal name ∷ back) c up bases (_, plain) h =
        Ensures-bind (path_from_relative s {F = F} host (reverse (back ++ (c ∷ up))))
          (λ base. push_ancestors s {F = F} host (back ++ (c ∷ up)) (push_directory s bases base))
          (λ base _. push_ancestors-Covers back c up (push_directory s bases base) plain h)
    push_ancestors-Covers (root_dir ∷ back) c up bases (no_name, plain) h = absurd no_name
    push_ancestors-Covers (cur_dir ∷ back) c up bases (no_name, plain) h = absurd no_name
    push_ancestors-Covers (parent_dir ∷ back) c up bases (no_name, plain) h = absurd no_name

    -- The path itself, if it is a directory, and all directories above it.
    pub record IsReached (out : List VaultPath) (path : VaultPath) : Type 0 where
      pub itself : host.is_dir path.absolute ≡ true → IsManaged s path → Holds out path
      pub above :
          (front : FilePath) (c : Component) (rest : FilePath)
          → path.relative ≡ front ++ (c ∷ rest)
          → Covers out front

    IsReached-Extends :
        (bases out : List VaultPath) (path : VaultPath)
        → Extends bases out
        → IsReached bases path
        → IsReached out path
    IsReached-Extends bases out path e r = record {
      itself = λ there managed. Holds-Extends bases out path e (r.itself there managed);
      above = λ front c rest h. Covers-Extends bases out front e (r.above front c rest h);
    }

    push_path-Extends :
        (path : VaultPath) (bases : List VaultPath)
        → Ensures (Extends bases) (push_path s {F = F} host path bases)
    push_path-Extends path bases =
        Ensures-if _ _ _
          (Ensures-weaken _ (λ out e. extends_trans bases _ out (push-Extends _ bases path) e)
            (push_ancestors-Extends (reverse path.relative) (push_itself s host path bases)))
          (Ensures-ok _ (extends_refl bases))

    All-behind : (front rest : FilePath) → All IsNormal (front ++ rest) → All IsNormal rest
    All-behind [] rest plain = plain
    All-behind (c ∷ front) rest (_, plain) = All-behind front rest plain

    All-last :
        (path : FilePath) (c : Component)
        → All IsNormal path
        → IsNormal c
        → All IsNormal (path ++ c ∷ [])
    All-last [] c plain h = (h, tt)
    All-last (d ∷ path) c (first, plain) h = (first, All-last path c plain h)

    All-reverse : (path : FilePath) → All IsNormal path → All IsNormal (reverse path)
    All-reverse [] plain = tt
    All-reverse (c ∷ path) (h, plain) =
        subst (All IsNormal) (sym (reverse-cons c path))
          (All-last (reverse path) c (All-reverse path plain) h)

    push_path-above :
        (path : VaultPath) (bases : List VaultPath) (front : FilePath) (c : Component)
        (rest : FilePath)
        → All IsNormal path.relative
        → path.relative ≡ front ++ (c ∷ rest)
        → Ensures
            (λ out. Covers out front)
            (push_ancestors s {F = F} host (reverse path.relative) bases)
    push_path-above path bases front c rest plain h =
        let behind = All-behind front (c ∷ rest) (subst (All IsNormal) h plain) in
        subst (λ r. Ensures (λ out. Covers out front) (push_ancestors s {F = F} host r bases))
          (sym (ap reverse h ∙ reverse-between front c rest))
          (subst
            (λ f.
              Ensures (λ out. Covers out f)
                (push_ancestors s {F = F} host (reverse rest ++ (c ∷ reverse front)) bases))
            (reverse-reverse front)
            (push_ancestors-Covers (reverse rest) c (reverse front) bases
              (All-reverse rest behind.1) behind.0))

    push_path-IsReached :
        (path : VaultPath) (bases : List VaultPath)
        → All IsNormal path.relative
        → (path.root.value == s.root_id.value) ≡ true
        → Ensures (λ out. IsReached out path) (push_path s {F = F} host path bases)
    push_path-IsReached path bases plain mine = rw mine (record {
      at = λ out h. record {
        itself = λ there managed.
            Holds-Extends _ out path
              ((push_ancestors-Extends (reverse path.relative) (push_itself s host path bases)).at
                out h)
              (push_itself-Holds host path bases there managed);
        above = λ front c rest e.
            (push_path-above path (push_itself s host path bases) front c rest plain e).at out h;
      };
    })

    affected-Extends :
        (paths bases : List VaultPath)
        → Ensures (Extends bases) (affected s {F = F} host paths bases)
    unfolding affected
    affected-Extends [] bases = Ensures-ok _ (extends_refl bases)
    affected-Extends (path ∷ paths) bases = Ensures-bind _ _ (λ more h.
        Ensures-weaken _
          (λ out e. extends_trans bases more out ((push_path-Extends path bases).at more h) e)
          (affected-Extends paths more))

    -- A path of the root is reached.
    abbrev pub IsDone : List VaultPath → VaultPath → Type 0
    IsDone out path = (path.root.value == s.root_id.value) ≡ true → IsReached out path

    affected-IsDone :
        (paths bases : List VaultPath)
        → All (λ path. All IsNormal path.relative) paths
        → Ensures (λ out. All (IsDone out) paths) (affected s {F = F} host paths bases)
    unfolding affected
    affected-IsDone [] bases plain = Ensures-ok _ tt
    affected-IsDone (path ∷ paths) bases (first, plain) = Ensures-bind _ _ (λ more h. record {
      at = λ out e. (
        (λ mine.
            IsReached-Extends more out path ((affected-Extends paths more).at out e)
              ((push_path-IsReached path bases first mine).at more h)),
        (affected-IsDone paths more plain).at out e,
      );
    })

    -- If the paths of an event are plain names below their roots, and the directories that it
    -- affects are found, then none of them is excluded; for each path in the root of the service
    -- they hold the path itself, if it is a directory that is not excluded, and each directory above
    -- it, to which its relative path resolves, unless that is excluded; and they hold nothing else:
    -- each of them is a path of the event, in the root of the service, that is a directory, or is
    -- above such a path.
    pub affected-IsReached :
        (paths : List VaultPath) {out : List VaultPath}
        → All (λ path. All IsNormal path.relative) paths
        → affected s {F = F} host paths [] ≡ ok out
        → All (IsManaged s) out × All (IsDone out) paths × All (HasSource s F host paths) out
    affected-IsReached paths plain h = (
      (affected-IsManaged s host paths [] tt).at _ h,
      (affected-IsDone paths [] plain).at _ h,
      (affected-HasSource s F host paths).at _ h,
    )
