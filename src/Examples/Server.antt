-- ===== src/Examples/Server.antt =====
-- A server with the roots /srv/notes and /srv/work, and a symbolic link from the first into the
-- second (crates/contextos-core/src/path.rs).
use context_os_mcp.Prelude.{
  All, Bool, List, Option, [], arith, codes, false, if◌then◌else◌, list_eq, none, ok, refl, some,
  some-injective, sym, true, ◌++◌, ◌==◌, ◌>>=◌, ◌∷◌, ◌≡◌,
}
use context_os_mcp.FilePath.{FilePath, root_dir, normal, component_eq, IsCanonical}
use context_os_mcp.Host.{Host, Inspection, found, not_found, IsLawful}
use context_os_mcp.Vault.Root.{VaultRoot, IsRoot, is_valid_scheme_token}
use context_os_mcp.Vault.Set.{VaultSet, try_from, check_unique}
use context_os_mcp.Vault.Set.Distinct.{IsVaultSet, try_from_iff}

-- Where each path that exists leads.
abbrev pub find : FilePath → List (FilePath × FilePath) → Option FilePath
find p [] = none
find p ((from, to) ∷ entries) = if p == from then some to else find p entries

abbrev targets : (FilePath × FilePath) → FilePath
targets entry = entry.1

find-IsCanonical :
    (p q : FilePath) (entries : List (FilePath × FilePath))
    → All (λ e. IsCanonical (targets e)) entries
    → find p entries ≡ some q
    → IsCanonical q
find-IsCanonical p q [] a h = cc
find-IsCanonical p q ((from, to) ∷ entries) a h =
    ground (arith, find-IsCanonical p q entries a.1, a.0)

abbrev pub notes : FilePath
notes = root_dir ∷ normal (codes "srv") ∷ normal (codes "notes") ∷ []

abbrev pub work : FilePath
work = root_dir ∷ normal (codes "srv") ∷ normal (codes "work") ∷ []

abbrev disk : List (FilePath × FilePath)
disk =
    (root_dir ∷ [], root_dir ∷ [])
    ∷ (root_dir ∷ normal (codes "srv") ∷ [], root_dir ∷ normal (codes "srv") ∷ [])
    ∷ (notes, notes)
    ∷ (work, work)
    ∷ (notes ++ normal (codes "link") ∷ [], work)
    ∷ []

abbrev inspected : Option FilePath → Inspection
inspected (some _) = found
inspected none = not_found

abbrev exists : Option FilePath → Bool
exists (some _) = true
exists none = false

abbrev pub server : Host
server = record {
  symlink_metadata = λ p. inspected (find p disk);
  canonicalize = λ p. find p disk;
  is_dir = λ p. exists (find p disk);
  from_path_buf = λ p. some p;
}

pub server-IsLawful : IsLawful server
server-IsLawful = record {
  canonical = λ p q h. find-IsCanonical p q disk _ h;
  same_path = λ p q h. sym (some-injective p q h);
}

abbrev pub notes_root : VaultRoot
notes_root = record { resolved = notes; managed = true; name = codes "Notes" }

abbrev pub work_root : VaultRoot
work_root = record { resolved = work; managed = false; name = codes "work" }

abbrev pub both : VaultSet
both = record { roots = notes_root ∷ work_root ∷ [] }

notes_root-named : is_valid_scheme_token notes_root.name ≡ true
unfolding is_valid_scheme_token
notes_root-named = refl

work_root-named : is_valid_scheme_token work_root.name ≡ true
unfolding is_valid_scheme_token
work_root-named = refl

pub notes_root-IsRoot : IsRoot notes_root
notes_root-IsRoot = record { canonical = (tt, (tt, tt)); named = notes_root-named }

pub work_root-IsRoot : IsRoot work_root
work_root-IsRoot = record { canonical = (tt, (tt, tt)); named = work_root-named }

pub both-try_from : try_from both.roots ≡ ok both
unfolding try_from check_unique ◌>>=◌
both-try_from = refl

pub both-IsVaultSet : IsVaultSet both.roots
both-IsVaultSet = ((try_from_iff both.roots both).0 both-try_from).0
