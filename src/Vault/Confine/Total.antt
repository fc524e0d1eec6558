-- ===== src/Vault/Confine/Total.antt =====
-- No input makes path validation index a root that is not there.
use context_os_mcp.Prelude.{
  map_err-eq-ok, Bool, Bool-cases, List, Option, Result, Text, [], arith, codes, err, false,
  get_elem?, if◌then◌else◌, inl, inr, length, list_eq, nat_eq, none, ok, refl, some, true, ℕ, ◌==◌,
  ◌>>=◌, ◌∷◌, ◌≡◌, ◌≢◌,
}
use context_os_mcp.FilePath.{components, is_absolute}
use context_os_mcp.Host.{Host}
use context_os_mcp.Vault.Error.{PathError}
use context_os_mcp.Vault.Root.{VaultRootId, VaultRoot, is_valid_scheme_token}
use context_os_mcp.Vault.Set.{VaultSet, root_by_name}
use context_os_mcp.Vault.Confine.{
  Fault, refused, panicked, typed, indexed, named_prefix, prefix_parts, prefix_root, split_once,
  resolve_within_named_root, resolve_plain, by_prefix, try_from, try_from_vault_selector,
}
use context_os_mcp.Vault.Confine.Named.{root_by_name_sound}

record Total {ℓ} {A : Type ℓ} (m : Result Fault A) : Type ℓ where
  never : m ≢ err panicked

module _ {ℓ} {A : Type ℓ} where
  Total-ok : (a : A) → Total (ok a)
  Total-ok a = record { never = λ e. cc }

  Total-refused : (e : PathError) → Total {A = A} (err (refused e))
  Total-refused e = record { never = λ h. cc }

  Total-typed : (m : Result PathError A) → Total (typed m)
  Total-typed (ok a) = record { never = λ e. cc }
  Total-typed (err e) = record { never = λ h. cc }

  Total-if :
      (b : Bool) (m n : Result Fault A)
      → (b ≡ true → Total m)
      → Total n
      → Total (if b then m else n)
  Total-if true m n p q = p refl
  Total-if false m n p q = q

module _ {ℓ κ} {A : Type ℓ} {B : Type κ} where
  Total-bind :
      (m : Result Fault A) (f : A → Result Fault B)
      → Total m
      → ((a : A) → m ≡ ok a → Total (f a))
      → Total (m >>= f)
  unfolding ◌>>=◌
  Total-bind (ok a) f p q = q a refl
  Total-bind (err e) f p q = record { never = λ h. p.never (cc) }

Total-indexed :
    (roots : List VaultRoot) (i : ℕ) {r : VaultRoot}
    → get_elem? roots i ≡ some r
    → Total (indexed (get_elem? roots i))
Total-indexed roots i {r} h = rw h (Total-ok r)

first_root :
    (roots : List VaultRoot) → (length roots == 1) ≡ true → Total (indexed (get_elem? roots 0))
first_root [] h = absurd (cc)
first_root (r ∷ rs) h = Total-ok r

prefix_parts-at :
    (roots : VaultSet) (parts : Option (Text × Text)) {index : ℕ} {remainder : Text}
    → prefix_parts roots parts ≡ ok (some (index, remainder))
    → (r : VaultRoot) × (get_elem? roots.roots index ≡ some r)
prefix_parts-at roots none h = cc
prefix_parts-at roots (some (name, rest)) {index} {remainder} h =
    elim (Bool-cases (is_valid_scheme_token name)) [
      | inl token ↦ go (root_by_name roots name) refl (rw token at h)
      | inr other ↦ absurd (let e = rw other at h in cc)
    ]
  where
    go :
        (o : Option (VaultRootId × VaultRoot))
        → root_by_name roots name ≡ o
        → prefix_root o name rest ≡ ok (some (index, remainder))
        → (r : VaultRoot) × (get_elem? roots.roots index ≡ some r)
    go none e p = absurd (cc)
    go (some (id, r)) e p = (r, ground (arith, root_by_name_sound roots name {id = id} {r = r} e))

module _ (host : Host) (roots : VaultSet) where
  resolve_within_named_root-Total :
      (index : ℕ) (remainder : Text) {r : VaultRoot}
      → get_elem? roots.roots index ≡ some r
      → Total (resolve_within_named_root host roots index remainder)
  unfolding resolve_within_named_root
  resolve_within_named_root-Total index remainder {r} at_index =
      Total-bind _ _ (Total-indexed roots.roots index {r = r} at_index) λ q _.
        Total-if (remainder == []) _ _ (λ _. Total-refused _)
          (Total-bind _ _ (Total-typed _) λ _ _. Total-typed _)

  resolve_plain-Total : (raw : Text) → Total (resolve_plain host roots raw)
  unfolding resolve_plain
  resolve_plain-Total raw = Total-bind _ _ (Total-typed _) λ _ _.
      Total-if (is_absolute (components raw)) _ _ (λ _. Total-typed _)
        (Total-if (length roots.roots == 1) _ _
          (λ one. Total-bind _ _ (first_root roots.roots one) λ _ _. Total-typed _)
          (Total-refused _))

  by_prefix-Total :
      (raw : Text) (prefix : Option (ℕ × Text))
      → named_prefix raw roots ≡ ok prefix
      → Total (by_prefix host roots raw prefix)
  unfolding named_prefix
  by_prefix-Total raw none h = resolve_plain-Total raw
  by_prefix-Total raw (some (index, remainder)) h =
      let (r, at_index) =
        prefix_parts-at roots (split_once (codes "://") raw) {index = index} {remainder = remainder}
          h in
      resolve_within_named_root-Total index remainder {r = r} at_index

  try_from-Total : (raw : Text) → Total (try_from host roots raw)
  unfolding try_from
  try_from-Total raw =
      Total-bind _ _ (Total-typed _)
        λ prefix e. by_prefix-Total raw prefix (map_err-eq-ok refused _ e)

  -- Whatever the host, the set of roots and the text, neither entry point of path validation
  -- indexes past the roots: it returns a path or one of the typed refusals.
  validation_never_panics :
      (raw : Text)
      → (try_from host roots raw ≢ err panicked)
        × (try_from_vault_selector host roots raw ≢ err panicked)
  unfolding try_from_vault_selector
  validation_never_panics raw = ((try_from-Total raw).never, (try_from-Total _).never)
