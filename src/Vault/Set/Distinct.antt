-- ===== src/Vault/Set/Distinct.antt =====
-- A constructed set has no two roots at one path or of one name: `VaultSet::try_from`.
use context_os_mcp.Vault.Root.{u32_limit, VaultRoot}
use context_os_mcp.Vault.Set.{try_from, VaultSet, check_unique}
use context_os_mcp.Prelude.{
  ◌<◌, ◌↔◌, length, to_ascii_lowercase, ok, Text, map, ℕ, zero, suc, ◌≡◌, refl, Bool, true, false,
  some, List, [], ◌∷◌, Eq, nat_eq, list_eq, get_elem?, contains, arith, if◌then◌else◌, ap,
}
use context_os_mcp.FilePath.{FilePath, component_eq}

-- Different positions hold different elements.
abbrev pub Distinct {ℓ} : {A : Type ℓ} → List A → Type ℓ
Distinct {A} xs = (i j : ℕ) (a : A) → get_elem? xs i ≡ some a → get_elem? xs j ≡ some a → i ≡ j

module _ {ℓ} {A : Type ℓ} ⦃e : Eq A⦄ where
  -- No element is in `seen` or stands twice.
  abbrev fresh : List A → List A → Bool
  fresh seen [] = true
  fresh seen (x ∷ xs) = let rest = fresh (x ∷ seen) xs in if contains x seen then false else rest

  fresh-not_seen :
      (seen xs : List A) (i : ℕ) (a : A)
      → fresh seen xs ≡ true
      → get_elem? xs i ≡ some a
      → contains a seen ≡ false
  fresh-not_seen seen [] i a f g = cc
  fresh-not_seen seen (x ∷ xs) zero a f g = ground arith
  fresh-not_seen seen (x ∷ xs) (suc i) a f g = ground (arith, fresh-not_seen (x ∷ seen) xs i a)

  fresh-Distinct : (seen xs : List A) → fresh seen xs ≡ true → Distinct xs
  fresh-Distinct seen [] f i j a p q = cc
  fresh-Distinct seen (x ∷ xs) f zero zero a p q = refl
  fresh-Distinct seen (x ∷ xs) f zero (suc j) a p q =
      ground (arith, fresh-not_seen (x ∷ seen) xs j a, e.equal_iff a x)
  fresh-Distinct seen (x ∷ xs) f (suc i) zero a p q =
      ground (arith, fresh-not_seen (x ∷ seen) xs i a, e.equal_iff a x)
  fresh-Distinct seen (x ∷ xs) f (suc i) (suc j) a p q =
      ap suc (fresh-Distinct (x ∷ seen) xs (ground arith) i j a p q)

  Distinct-tail : (x : A) (xs : List A) → Distinct (x ∷ xs) → Distinct xs
  Distinct-tail x xs d i j a p q = omega (arith, d (suc i) (suc j) a p q)

  Distinct-fresh :
      (seen xs : List A)
      → Distinct xs
      → ((i : ℕ) (a : A) → get_elem? xs i ≡ some a → contains a seen ≡ false)
      → fresh seen xs ≡ true
  Distinct-fresh seen [] d n = refl
  Distinct-fresh seen (x ∷ xs) d n =
      ground (arith, n 0 x refl, Distinct-fresh (x ∷ seen) xs (Distinct-tail x xs d) later)
    where
      later : (i : ℕ) (a : A) → get_elem? xs i ≡ some a → contains a (x ∷ seen) ≡ false
      later i a g = ground (arith, n (suc i) a g, e.equal_iff a x, d 0 (suc i) a)

abbrev pub lower_name : VaultRoot → Text
lower_name r = to_ascii_lowercase r.name

abbrev pub resolved_path : VaultRoot → FilePath
resolved_path r = r.resolved

check_unique-fresh :
    (paths : List FilePath) (names : List Text) (roots : List VaultRoot)
    → (check_unique paths names roots ≡ ok tt) ↔ (
        (fresh paths (map resolved_path roots) ≡ true)
        × (fresh names (map lower_name roots) ≡ true))
unfolding check_unique
check_unique-fresh paths names [] = ground arith
check_unique-fresh paths names (r ∷ rs) =
    ground (arith, check_unique-fresh (r.resolved ∷ paths) (lower_name r ∷ names) rs)

-- What the configuration must satisfy, said without the hash sets: some root, few enough for the
-- identifiers, and no path and no name (in lower case) at two positions.
pub record IsVaultSet (roots : List VaultRoot) : Type 0 where
  pub some_root : 0 < length roots
  pub fits : length roots < u32_limit
  pub paths : Distinct (map resolved_path roots)
  pub names : Distinct (map lower_name roots)

check_unique-Distinct :
    (roots : List VaultRoot)
    → check_unique [] [] roots ≡ ok tt
    → Distinct (map resolved_path roots) × Distinct (map lower_name roots)
check_unique-Distinct roots h =
    let (p, n) = (check_unique-fresh [] [] roots).0 h in
    (fresh-Distinct [] _ p, fresh-Distinct [] _ n)

Distinct-check_unique :
    (roots : List VaultRoot)
    → Distinct (map resolved_path roots)
    → Distinct (map lower_name roots)
    → check_unique [] [] roots ≡ ok tt
Distinct-check_unique roots p n =
    (check_unique-fresh [] [] roots).1
      (Distinct-fresh [] _ p (λ i a g. refl), Distinct-fresh [] _ n (λ i a g. refl))

try_from-checks :
    (roots : List VaultRoot) (s : VaultSet)
    → (try_from roots ≡ ok s) ↔ (
        (0 < length roots)
        × (length roots < u32_limit)
        × (check_unique [] [] roots ≡ ok tt)
        × (s.roots ≡ roots))
unfolding try_from
try_from-checks [] s = ground arith
try_from-checks (r ∷ rs) s = ground arith

-- `VaultSet::try_from` accepts exactly the lists of roots that are not empty, fit the identifiers
-- and repeat no path and no name up to ASCII case, and then it keeps them as they are.
pub try_from_iff :
    (roots : List VaultRoot) (s : VaultSet)
    → (try_from roots ≡ ok s) ↔ (IsVaultSet roots × (s.roots ≡ roots))
try_from_iff roots s = (to, from)
  where
    to : try_from roots ≡ ok s → IsVaultSet roots × (s.roots ≡ roots)
    to h =
        let (pos, fits, unique, same) = (try_from-checks roots s).0 h in
        let (p, n) = check_unique-Distinct roots unique in
        (record { some_root = pos; fits = fits; paths = p; names = n }, same)

    from : IsVaultSet roots × (s.roots ≡ roots) → try_from roots ≡ ok s
    from (v, same) =
        (try_from-checks roots s).1
          (v.some_root, v.fits, Distinct-check_unique roots v.paths v.names, same)
