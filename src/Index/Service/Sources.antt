-- ===== src/Index/Service/Sources.antt =====
-- Where the directories that an event affects come from.
use mathlib.Core.List.{reverse-append, reverse-reverse, reverse-cons}
use context_os_mcp.Prelude.{
  All, Bool, Ensures, Ensures-bind, Ensures-ok, List, [], ap, append_assoc, arith, false,
  if◌then◌else◌, inl, inr, list_eq, nat_eq, option_eq, ok, refl, reverse, sym, true, ◌++◌, ◌==◌,
  ◌∙◌, ◌∷◌, ◌≡◌, ◌⊎◌,
}
use context_os_mcp.FilePath.{FilePath, Component, root_dir, cur_dir, parent_dir, normal}
use context_os_mcp.Host.{Host}
use context_os_mcp.Vault.Confine.{VaultPath}
use context_os_mcp.Index.Service.{
  IndexService, path_from_relative, push_directory, push_ancestors, push_itself, push_path,
  affected,
}

pub reverse-between :
    (front : FilePath) (c : Component) (rest : FilePath)
    → reverse (front ++ (c ∷ rest)) ≡ reverse rest ++ (c ∷ reverse front)
reverse-between front c rest =
    reverse-append front (c ∷ rest)
    ∙ ap (λ r. r ++ reverse front) (reverse-cons c rest)
    ∙ append_assoc (reverse rest) (c ∷ []) (reverse front)

module _ {W R E T : Type 0} (s : IndexService W R E T) (F : Type 0) (host : Host) where
  -- The path, in the root of the service, is itself the directory, or the directory is one above
  -- it.
  abbrev pub ComesFrom : VaultPath → VaultPath → Type 0
  ComesFrom path base =
      ((path.root.value == s.root_id.value) ≡ true)
      × (((base ≡ path) × (host.is_dir path.absolute ≡ true))
          ⊎ ((front : FilePath) × (c : Component) × (rest : FilePath) × (path.relative
                ≡ front ++ (c ∷ rest))
              × (path_from_relative s {F = F} host front ≡ ok base)))

  -- One of the paths has the directory.
  abbrev pub HasSource : List VaultPath → VaultPath → Type 0
  HasSource [] base = ⊥
  HasSource (path ∷ paths) base = ComesFrom path base ⊎ HasSource paths base

  module _ (P : VaultPath → Type 0) where
    All-append : (a : List VaultPath) (b : VaultPath) → All P a → P b → All P (a ++ b ∷ [])
    All-append [] b p q = (q, tt)
    All-append (x ∷ a) b (h, p) q = (h, All-append a b p q)

    push-All :
        (guard : Bool) (bases : List VaultPath) (base : VaultPath)
        → All P bases
        → (guard ≡ true → P base)
        → All P (if guard then bases ++ base ∷ [] else bases)
    push-All true bases base p h = All-append bases base p (h refl)
    push-All false bases base p h = p

    abbrev AreAbove : FilePath → Type 0
    AreAbove up =
        (back : FilePath) (c : Component) (front : FilePath) (base : VaultPath)
        → up ≡ back ++ (c ∷ front)
        → path_from_relative s {F = F} host (reverse front) ≡ ok base
        → P base

    push_ancestors-All :
        (up : FilePath) (bases : List VaultPath)
        → All P bases
        → AreAbove up
        → Ensures (All P) (push_ancestors s {F = F} host up bases)
    unfolding push_ancestors
    push_ancestors-All [] bases p h = Ensures-ok _ p
    push_ancestors-All (root_dir ∷ up) bases p h = Ensures-ok _ p
    push_ancestors-All (cur_dir ∷ up) bases p h = Ensures-bind _ _ (λ base at.
        push_ancestors-All up (push_directory s bases base)
          (push-All _ bases base p (λ _. h [] cur_dir up base refl at))
          (λ back c front b e. h (cur_dir ∷ back) c front b (ap (λ r. cur_dir ∷ r) e)))
    push_ancestors-All (parent_dir ∷ up) bases p h = Ensures-bind _ _ (λ base at.
        push_ancestors-All up (push_directory s bases base)
          (push-All _ bases base p (λ _. h [] parent_dir up base refl at))
          (λ back c front b e. h (parent_dir ∷ back) c front b (ap (λ r. parent_dir ∷ r) e)))
    push_ancestors-All (normal name ∷ up) bases p h = Ensures-bind _ _ (λ base at.
        push_ancestors-All up (push_directory s bases base)
          (push-All _ bases base p (λ _. h [] (normal name) up base refl at))
          (λ back c front b e. h (normal name ∷ back) c front b (ap (λ r. normal name ∷ r) e)))

    push_path-All :
        (path : VaultPath) (bases : List VaultPath)
        → All P bases
        → ((base : VaultPath) → ComesFrom path base → P base)
        → Ensures (All P) (push_path s {F = F} host path bases)
    push_path-All path bases p h = go (path.root.value == s.root_id.value) refl
      where
        ancestors : (path.root.value == s.root_id.value) ≡ true → AreAbove (reverse path.relative)
        ancestors mine back c front base e at = h base (
          mine,
          inr (
            reverse front,
            c,
            reverse back,
            sym (reverse-reverse path.relative) ∙ ap reverse e ∙ reverse-between back c front,
            at,
          ),
        )

        itself : (path.root.value == s.root_id.value) ≡ true → All P (push_itself s host path bases)
        itself mine = push-All _ bases path p (λ g. h path (mine, inl (refl, ground (arith, g))))

        go :
            (b : Bool)
            → (path.root.value == s.root_id.value) ≡ b
            → Ensures (All P) (
                if b
                then push_ancestors s {F = F} host
                    (reverse path.relative)
                    (push_itself s host path bases)
                else ok bases)
        go true mine = push_ancestors-All (reverse path.relative) _ (itself mine) (ancestors mine)
        go false other = Ensures-ok _ p

    affected-All :
        (paths bases : List VaultPath)
        → All P bases
        → ((base : VaultPath) → HasSource paths base → P base)
        → Ensures (All P) (affected s {F = F} host paths bases)
    unfolding affected
    affected-All [] bases p h = Ensures-ok _ p
    affected-All (path ∷ paths) bases p h = Ensures-bind _ _ (λ more at.
        affected-All paths more
          ((push_path-All path bases p (λ base comes. h base (inl comes))).at more at)
          (λ base comes. h base (inr comes)))

  -- Every directory that is affected has its source among the paths.
  pub affected-HasSource :
      (paths : List VaultPath)
      → Ensures (λ out. All (HasSource paths) out) (affected s {F = F} host paths [])
  affected-HasSource paths = affected-All (HasSource paths) paths [] tt (λ base comes. comes)
