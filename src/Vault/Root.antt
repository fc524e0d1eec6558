-- ===== src/Vault/Root.antt =====
-- `VaultRootId`, `VaultRoot` and its construction (crates/contextos-core/src/path.rs).
use context_os_mcp.Prelude.{
  sym, subst, ℕ, ◌≡◌, Bool, true, false, ◌&&◌, ◌||◌, Option, none, some, [], ◌∷◌, arith, Text, ◌==◌,
  nat_eq, if◌then◌else◌, ltb, Result, ok, err, ◌>>=◌, ◌>>◌, refl, Ensures, Ensures-bind, Ensures-ok,
  all, is_ascii_alphabetic, is_ascii_alphanumeric, reverse,
}
use context_os_mcp.FilePath.{FilePath, normal, IsCanonical}
use context_os_mcp.Host.{Host, IsLawful}
use context_os_mcp.Vault.Error.{
  PathError, too_many_roots, root_resolution, root_not_directory, non_utf8, invalid_name,
}

abbrev pub u32_limit : ℕ
u32_limit = 0x1_0000_0000

pub record VaultRootId : Type 0 where
  pub value : ℕ

-- `VaultRootId::try_from(usize)`; back to `usize` nothing can fail on a 64-bit host.
unfoldable pub id_try_from : ℕ → Result PathError VaultRootId
id_try_from value =
    if ltb value u32_limit then ok (record { value = value }) else err (too_many_roots value)

pub record VaultRoot : Type 0 where
  pub resolved : FilePath
  pub managed : Bool
  pub name : Text

pub record VaultRootInput : Type 0 where
  pub path : FilePath
  pub managed : Bool
  pub name : Option Text

-- `is_valid_scheme_token`: ALPHA *( ALPHA / DIGIT / "+" / "-" / "." )
abbrev pub is_scheme_character : ℕ → Bool
is_scheme_character c = is_ascii_alphanumeric c || c == b'+' || c == b'-' || c == b'.'

unfoldable pub is_valid_scheme_token : Text → Bool
is_valid_scheme_token [] = false
is_valid_scheme_token (first ∷ chars) = is_ascii_alphabetic first && all is_scheme_character chars

-- `Path::file_name`: the last component, if it is a plain name.
abbrev pub last_name : FilePath → Option Text
last_name (normal name ∷ _) = some name
last_name _ = none

unfoldable pub file_name : FilePath → Option Text
file_name p = last_name (reverse p)

-- `value.name`, or the base name of the resolved directory.
abbrev pub choose_name : FilePath → Option Text → Option Text → Result PathError Text
choose_name path (some name) _ = ok name
choose_name path none (some name) = ok name
choose_name path none none = err (invalid_name path [])

-- `ok_or`
abbrev pub ok_or {ℓ} : {A : Type ℓ} → Option A → PathError → Result PathError A
ok_or (some a) e = ok a
ok_or none e = err e

pub ok_or-eq-ok {ℓ} :
    {A : Type ℓ} (o : Option A) (e : PathError) {a : A} → ok_or o e ≡ ok a → o ≡ some a
ok_or-eq-ok (some _) e h = ground arith
ok_or-eq-ok none e h = cc

abbrev pub ensure : Bool → PathError → Result PathError (Unit {0})
ensure true e = ok tt
ensure false e = err e

pub ensure-eq-ok : (b : Bool) (e : PathError) {u : Unit {0}} → ensure b e ≡ ok u → b ≡ true
ensure-eq-ok true e h = refl
ensure-eq-ok false e h = cc

-- `VaultRoot::try_from(VaultRootInput)`
unfoldable pub try_from : Host → VaultRootInput → Result PathError VaultRoot
try_from host input = do
  canonical ← ok_or (host.canonicalize input.path) (root_resolution input.path)
  ensure (host.is_dir canonical) (root_not_directory canonical)
  resolved ← ok_or (host.from_path_buf canonical) (non_utf8 canonical)
  name ← choose_name input.path input.name (file_name resolved)
  ensure (is_valid_scheme_token name) (invalid_name input.path name)
  ok (record { resolved = resolved; managed = input.managed; name = name })

-- `VaultRoot::try_from(PathBuf)`
unfoldable pub from_path : Host → FilePath → Result PathError VaultRoot
unfolding try_from
from_path host path = try_from host (record { path = path; managed = true; name = none })

-- What every constructed root satisfies.
pub record IsRoot (r : VaultRoot) : Type 0 where
  pub canonical : IsCanonical r.resolved
  pub named : is_valid_scheme_token r.name ≡ true

try_from-Ensures :
    (host : Host) (input : VaultRootInput) → IsLawful host → Ensures IsRoot (try_from host input)
unfolding try_from
try_from-Ensures host input law = Ensures-bind _ _ λ canonical c. Ensures-bind _ _ λ _ _.
    Ensures-bind _ _ λ resolved u. Ensures-bind _ _ λ name _. Ensures-bind _ _ λ _ v.
      Ensures-ok _ (record {
        canonical =
            subst IsCanonical (sym (law.same_path canonical resolved (ok_or-eq-ok _ _ u)))
              (law.canonical input.path canonical (ok_or-eq-ok _ _ c));
        named = ensure-eq-ok _ _ v;
      })

-- On a lawful host, a root that could be constructed lies at a canonical absolute path and has a
-- valid scheme token for a name.
try_from-IsRoot :
    (host : Host) (input : VaultRootInput) {r : VaultRoot}
    → IsLawful host
    → try_from host input ≡ ok r
    → IsRoot r
try_from-IsRoot host input {r} law h = (try_from-Ensures host input law).at r h
