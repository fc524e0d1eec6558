-- ===== src/Index/Service/Rebuild/Bounded.antt =====
-- A rebuild ends: the depth of the subtree is enough fuel.
use context_os_mcp.Exec.{Exec, ◌>>=◌, and_then}
use context_os_mcp.Prelude.{
  All, Bool, List, Option, Result, Text, [], if◌then◌else◌, none, not, nat_eq, some, suc, zero, ℕ,
  ◌&&◌, ◌==◌, ◌≡◌, refl, ap, subst, ok-injective, ◌∷◌, ok, err, true, false,
}
use context_os_mcp.Host.{Host}
use context_os_mcp.Vault.Confine.{VaultPath}
use context_os_mcp.Index.Service.{IndexService, IndexServiceError, VaultEntry, read_failed}
use context_os_mcp.Index.Service.Reconcile.{list_entries, listing_again}
use context_os_mcp.Exec.Kept.{Returned, mapped-Returned}
use context_os_mcp.Index.Service.Reconcile.Allowed.{child_of}
use context_os_mcp.Index.Service.Rebuild.{
  RebuildState, no_state, if_some, visible, directories_in, visit_children, rebuild_directory,
  rebuild_report,
}

-- Success or an error, but not the end of the fuel.
abbrev pub IsEnded : {E A : Type 0} → Result E (Option A) → Type 0
IsEnded (ok none) = ⊥
IsEnded (ok (some _)) = Unit
IsEnded (err _) = Unit

if-IsEnded :
    {W E A : Type 0} (b : Bool) (m n : Exec W E (Option A)) (w : W)
    → IsEnded (m w).0
    → IsEnded (n w).0
    → IsEnded ((if b then m else n) w).0
if-IsEnded true m n w p q = p
if-IsEnded false m n w p q = q

module _ {W E A B : Type 0} where
  and_then-IsEnded :
      (m : Exec W E A) (f : A → Exec W E (Option B))
      → ((a : A) → Returned m a → (w : W) → IsEnded (f a w).0)
      → (w : W) (r : Result E A × W) → m w ≡ r
      → IsEnded (and_then r f).0
  and_then-IsEnded m f k w (ok a, w') h = k a (w, w', h) w'
  and_then-IsEnded m f k w (err e, w') h = tt

  bind-IsEnded :
      (m : Exec W E A) (f : A → Exec W E (Option B))
      → ((a : A) → Returned m a → (w : W) → IsEnded (f a w).0)
      → (w : W) → IsEnded ((m >>= f) w).0
  unfolding ◌>>=◌
  bind-IsEnded m f k w = and_then-IsEnded m f k w (m w) refl

module _ {W R E T F : Type 0} (host : W → Host) (s : IndexService W R E T)
    (frontmatter : Text → Result F (Option Text × Text)) (to_lowercase : Text → Text)
    (to_uppercase : ℕ → Text) where
  abbrev State : Type 0
  State = RebuildState T

  abbrev Visit : Type 0
  Visit = VaultPath → State → Exec W (IndexServiceError R E F) (Option State)

  -- All directories that are visited below a directory have `P`.
  abbrev pub AllBelow : (VaultPath → Type 0) → VaultPath → List VaultEntry → Type 0
  AllBelow P base listing =
      All
        (λ entry.
          (path : VaultPath)
          → Returned (child_of host s frontmatter to_lowercase to_uppercase base entry.name) path
          → P path)
        (directories_in host s frontmatter to_lowercase to_uppercase
          (visible host s frontmatter to_lowercase to_uppercase base listing))

  -- However the directories are listed, those that are visited below a directory nest less deep.
  abbrev pub HasDepth : ℕ → VaultPath → Type 0
  HasDepth zero base = ⊥
  HasDepth (suc depth) base =
      (listing : List VaultEntry)
      → Returned (s.list base) listing
      → AllBelow (HasDepth depth) base listing

  abbrev VisitEnds : Visit → VaultPath → Type 0
  VisitEnds visit path = (state : State) (w : W) → IsEnded (visit path state w).0

  if_some-IsEnded :
      (next : State → Exec W (IndexServiceError R E F) (Option State))
      (m : Exec W (IndexServiceError R E F) (Option State)) (o : Option State)
      → ((w : W) → IsEnded (m w).0)
      → Returned m o
      → ((state : State) (w : W) → IsEnded (next state w).0)
      → (w : W) → IsEnded (if_some host s frontmatter to_lowercase to_uppercase next o w).0
  if_some-IsEnded next m none ends (v, v', h) k w =
      absurd (subst IsEnded (ap (λ p. p.0) h) (ends v))
  if_some-IsEnded next m (some state) ends r k w = k state w

  visit_children-IsEnded :
      (visit : Visit) (base : VaultPath) (entries : List VaultEntry)
      → All
          (λ entry.
            (path : VaultPath)
            → Returned (child_of host s frontmatter to_lowercase to_uppercase base entry.name) path
            → VisitEnds visit path)
          entries
      → (state : State) (w : W)
      → IsEnded
          (visit_children host s frontmatter to_lowercase to_uppercase visit base entries state w).0
  unfolding visit_children
  visit_children-IsEnded visit base [] ends state = λ w. tt
  visit_children-IsEnded visit base (entry ∷ entries) (first, more) state =
      bind-IsEnded _ _ (λ path at. bind-IsEnded _ _ (λ o returned.
        if_some-IsEnded _ (visit path state) o (first path at state) returned
          (visit_children-IsEnded visit base entries more)))

  All-map :
      {P Q : VaultEntry → Type 0} (entries : List VaultEntry)
      → ((entry : VaultEntry) → P entry → Q entry)
      → All P entries
      → All Q entries
  All-map [] f p = tt
  All-map (entry ∷ entries) f (first, more) = (f entry first, All-map entries f more)

  -- The second listing is a listing too.
  relisted :
      (base : VaultPath) (before listing : List VaultEntry) (again : Bool)
      → Returned (list_entries host s frontmatter to_lowercase to_uppercase base) before
      → Returned
          (listing_again host s frontmatter to_lowercase to_uppercase base before again)
          listing
      → Returned (s.list base) listing
  relisted base before listing true first second = mapped-Returned read_failed _ second
  relisted base before listing false first (w, w', h) =
      subst (Returned (s.list base)) (ok-injective (ap (λ p. p.0) h))
        (mapped-Returned read_failed _ first)

  rebuild_directory-IsEnded :
      (depth : ℕ) (dry_run : Bool) (base : VaultPath)
      → HasDepth depth base
      → (state : State) (w : W)
      → IsEnded
          (rebuild_directory host s frontmatter to_lowercase to_uppercase depth dry_run base state
            w).0
  unfolding rebuild_directory
  rebuild_directory-IsEnded zero dry_run base deep state = λ w. absurd deep
  rebuild_directory-IsEnded (suc depth) dry_run base deep state = bind-IsEnded _ _ (λ before first.
      bind-IsEnded _ _ (λ (legacy, moved) _. bind-IsEnded _ _ (λ listing second.
        bind-IsEnded _ _ (λ written _.
          visit_children-IsEnded
            (rebuild_directory host s frontmatter to_lowercase to_uppercase depth dry_run) base _
            (All-map _
              (λ entry below path at. rebuild_directory-IsEnded depth dry_run path (below path at))
              (deep listing (relisted base before listing (legacy && not dry_run) first second)))
            _))))

  -- If the directories below a directory nest at most as deep as the fuel, however they are listed,
  -- then a rebuild of its subtree does not run out of fuel: it returns its report or an error.
  pub rebuild_report-IsEnded :
      (depth : ℕ) (dry_run : Bool) (base : VaultPath)
      → HasDepth depth base
      → (w : W)
      → IsEnded (rebuild_report host s frontmatter to_lowercase to_uppercase depth base dry_run w).0
  unfolding rebuild_report
  rebuild_report-IsEnded depth dry_run base deep w =
      if-IsEnded (not (base.root.value == s.root_id.value)) _ _ w tt
        (rebuild_directory-IsEnded depth dry_run base deep no_state w)
