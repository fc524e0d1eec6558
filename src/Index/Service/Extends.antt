-- ===== src/Index/Service/Extends.antt =====
-- Lists of directories that only grow, of the loop of `reconcile_event`
-- (crates/contextos-index/src/lib.rs).
use context_os_mcp.Prelude.{
  Bool, Bool-cases, inl, inr, List, [], any, append_assoc, append-nil, ap, arith, beq_refl,
  if◌then◌else◌, list_eq, nat_eq, refl, subst, sym, true, false, ◌++◌, ◌∙◌, ◌∷◌, ◌≡◌,
}
use context_os_mcp.FilePath.{component_eq}
use context_os_mcp.Vault.Confine.{VaultPath}
use context_os_mcp.Index.Service.{path_beq}

path_beq_refl : (p : VaultPath) → path_beq p p ≡ true
path_beq_refl p = ground (arith, beq_refl p.root.value, beq_refl p.relative, beq_refl p.absolute)

-- A list with the entries of another at its front.
abbrev pub Extends : List VaultPath → List VaultPath → Type 0
Extends bases out = (gap : List VaultPath) × (out ≡ bases ++ gap)

pub extends_refl : (bases : List VaultPath) → Extends bases bases
extends_refl bases = ([], sym (append-nil bases))

pub extends_trans : (a b c : List VaultPath) → Extends a b → Extends b c → Extends a c
extends_trans a b c (g, h) (g', h') = (g ++ g', h' ∙ ap (λ l. l ++ g') h ∙ append_assoc a g g')

pub push-Extends :
    (guard : Bool) (bases : List VaultPath) (base : VaultPath)
    → Extends bases (if guard then bases ++ base ∷ [] else bases)
push-Extends true bases base = (base ∷ [], refl)
push-Extends false bases base = extends_refl bases

-- A path is among the directories, as their comparison tells.
abbrev pub Holds : List VaultPath → VaultPath → Type 0
Holds bases base = any (λ d. path_beq d base) bases ≡ true

Holds-front :
    (bases gap : List VaultPath) (base : VaultPath) → Holds bases base → Holds (bases ++ gap) base
Holds-front [] gap base h = absurd (cc)
Holds-front (d ∷ bases) gap base h = elim (Bool-cases (path_beq d base)) [
  | inl same ↦ rw same refl
  | inr other ↦ rw other (Holds-front bases gap base (rw other at h))
]

pub Holds-Extends :
    (bases out : List VaultPath) (base : VaultPath)
    → Extends bases out
    → Holds bases base
    → Holds out base
Holds-Extends bases out base (gap, h) held =
    subst (λ l. Holds l base) (sym h) (Holds-front bases gap base held)

pub Holds-last : (bases : List VaultPath) (base : VaultPath) → Holds (bases ++ base ∷ []) base
Holds-last [] base = rw (path_beq_refl base) refl
Holds-last (d ∷ bases) base = elim (Bool-cases (path_beq d base)) [
  | inl same ↦ rw same refl
  | inr other ↦ rw other (Holds-last bases base)
]
