-- ===== src/Vault/Set/Names.antt =====
-- Roots by name and by identifier: `VaultSet::root_by_name`, `VaultSet::root`.
use context_os_mcp.Vault.Set.Distinct.{lower_name, IsVaultSet}
use context_os_mcp.Vault.Root.{u32_limit, id_try_from, VaultRoot}
use context_os_mcp.Prelude.{
  Bool, Bool-cases, List, Option-cases, Text, [], ap, arith, eq_ignore_ascii_case, get_elem?, inl,
  inr, length, list_beq_iff, map, nat_eq, none, ok, position, position_from, refl, some, suc, sym,
  true, zero, ℕ, ◌+◌, ◌<◌, ◌∙◌, ◌∷◌, ◌≡◌, ◌≢◌,
}
use context_os_mcp.Vault.Set.{VaultSet, root, root_by_name}

-- `position` finds the first element that passes, and only that.
module _ {ℓ} {A : Type ℓ} (p : A → Bool) where
  pub position_from_sound :
      (i : ℕ) (xs : List A) {k : ℕ}
      → position_from i p xs ≡ some k
      → (j : ℕ) × (x : A) × (k ≡ i + j) × (get_elem? xs j ≡ some x) × (p x ≡ true)
  position_from_sound i [] {k} h = cc
  position_from_sound i (x ∷ xs) {k} h = elim (Bool-cases (p x)) [
    | inl t ↦ (0, x, ground arith, refl, t)
    | inr f ↦
        let (j, y, e, g, q) = position_from_sound (i + 1) xs {k = k} (ground arith) in
        (suc j, y, omega arith, g, q)
  ]

  pub position_from_complete :
      (i : ℕ) (xs : List A) (j : ℕ) (x : A)
      → get_elem? xs j ≡ some x
      → p x ≡ true
      → position_from i p xs ≢ none
  position_from_complete i [] j x g h = λ _. cc
  position_from_complete i (y ∷ xs) zero x g h = ground arith
  position_from_complete i (y ∷ xs) (suc j) x g h =
      ground (arith, position_from_complete (i + 1) xs j x)

get_elem?-map {ℓ κ} :
    {A : Type ℓ} {B : Type κ} (f : A → B) (xs : List A) (i : ℕ) {x : A}
    → get_elem? xs i ≡ some x
    → get_elem? (map f xs) i ≡ some (f x)
get_elem?-map f [] i h = cc
get_elem?-map f (y ∷ xs) zero h = cc
get_elem?-map f (y ∷ xs) (suc i) {x} h = get_elem?-map f xs i {x = x} h

pub get_elem?-lt-length {ℓ} :
    {A : Type ℓ} (xs : List A) (i : ℕ) {x : A} → get_elem? xs i ≡ some x → i < length xs
get_elem?-lt-length [] i h = absurd (cc)
get_elem?-lt-length (y ∷ xs) zero h = omega arith
get_elem?-lt-length (y ∷ xs) (suc i) {x} h = omega (arith, get_elem?-lt-length xs i {x = x} h)

pub id_try_from-lt : (i : ℕ) → i < u32_limit → id_try_from i ≡ ok (record { value = i })
unfolding id_try_from
id_try_from-lt i h = ground arith

module _ (roots : List VaultRoot) (v : IsVaultSet roots) where
  abbrev the_set : VaultSet
  the_set = record { roots = roots }

  abbrev same_name : Text → VaultRoot → Bool
  same_name name r = eq_ignore_ascii_case r.name name

  position-own :
      (i : ℕ) (r : VaultRoot) (name : Text)
      → get_elem? roots i ≡ some r
      → same_name name r ≡ true
      → position (same_name name) roots ≡ some i
  position-own i r name g h = elim (Option-cases (position (same_name name) roots)) [
    | inl lost ↦ absurd (position_from_complete (same_name name) 0 roots i r g h lost)
    | inr (k, at_k) ↦
        let (j, x, e, gx, q) = position_from_sound (same_name name) 0 roots {k = k} at_k in
        let lower : lower_name x ≡ lower_name r =
          (list_beq_iff _ _).0 q ∙ sym ((list_beq_iff _ _).0 h) in
        let here = get_elem?-map lower_name roots i g in
        let there = get_elem?-map lower_name roots j gx in
        let same : i ≡ j = v.names i j (lower_name r) here (there ∙ ap some lower) in
        at_k ∙ ap some (omega arith)
  ]

  -- In a valid set a name finds the root that has it, up to ASCII case, under an identifier that
  -- leads back to that root.
  pub root_by_name-own :
      (i : ℕ) (r : VaultRoot) (name : Text)
      → get_elem? roots i ≡ some r
      → eq_ignore_ascii_case r.name name ≡ true
      → (root_by_name the_set name ≡ some (record { value = i }, r))
        × (root the_set (record { value = i }) ≡ some r)
  unfolding root_by_name root
  root_by_name-own i r name g h =
      let fits : i < u32_limit = omega (arith, get_elem?-lt-length roots i {x = r} g, v.fits) in
      (rw (position-own i r name g h, id_try_from-lt i fits, g), g)
