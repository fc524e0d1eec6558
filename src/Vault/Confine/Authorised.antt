-- ===== src/Vault/Confine/Authorised.antt =====
-- Whatever `VaultPath::try_from` returns lies inside the root that it names.
use context_os_mcp.Prelude.{
  starts_with-append, Ensures-if, Ensures-weaken, Ensures-map_err, some-injective, All, Ensures,
  Ensures-bind, Ensures-err, Ensures-ok, List, Option, Text, [], ap, arith, beq_refl, get_elem?,
  inl, inr, length, list_eq, nat_beq_iff, nat_eq, none, ok, some, starts_with, strip_prefix_sound,
  subst, suc, sym, true, zero, ℕ, ◌&&◌, ◌++◌, ◌+◌, ◌==◌, ◌∙◌, ◌∷◌, ◌≡◌, ◌⊎◌,
}
use context_os_mcp.FilePath.{
  FilePath, component_eq, components, is_absolute, join, IsNormal, IsCanonical,
}
use context_os_mcp.FilePath.Laws.{join-normals, IsCanonical-rest}
use context_os_mcp.Host.{Host, IsLawful}
use context_os_mcp.Vault.Root.{VaultRootId, VaultRoot, IsRoot, id_try_from, ok_or-eq-ok}
use context_os_mcp.Vault.Set.{VaultSet}
use context_os_mcp.Vault.Resolve.Longest.{resolve_with_missing_suffix-IsCanonical}
use context_os_mcp.Vault.Confine.{
  refused, VaultPath, typed, permitted, select, build, finish, resolve_within_named_root,
  resolve_plain, by_prefix, try_from, authorises,
}

All-at {ℓ κ} :
    {A : Type ℓ} (P : A → Type κ) (xs : List A) (i : ℕ) {x : A}
    → All P xs
    → get_elem? xs i ≡ some x
    → P x
All-at P [] i a h = absurd (cc)
All-at P (y ∷ xs) zero a h = subst P (some-injective _ _ h) a.0
All-at P (y ∷ xs) (suc i) {x} a h = All-at P xs i {x = x} a.1 h

select-step :
    (index : ℕ) (restrict_to : Option ℕ) (resolved : FilePath) (x : VaultRoot) (rs : List VaultRoot)
    {k : ℕ} {r : VaultRoot}
    → select index restrict_to resolved (x ∷ rs) ≡ some (k, r)
    → ((index ≡ k)
        × (x ≡ r)
        × (permitted restrict_to index ≡ true)
        × (starts_with resolved x.resolved ≡ true))
      ⊎ (select (index + 1) restrict_to resolved rs ≡ some (k, r))
unfolding select
select-step index restrict_to resolved x rs h = ground arith

pub select_sound :
    (index : ℕ) (restrict_to : Option ℕ) (resolved : FilePath) (rs : List VaultRoot) {k : ℕ}
    {r : VaultRoot}
    → select index restrict_to resolved rs ≡ some (k, r)
    → (j : ℕ) × (k ≡ index + j)
      × (get_elem? rs j ≡ some r)
      × (starts_with resolved r.resolved ≡ true)
      × (permitted restrict_to k ≡ true)
select_sound index restrict_to resolved [] h = unfold select in cc
select_sound index restrict_to resolved (x ∷ rs) {k} {r} h =
    elim (select-step index restrict_to resolved x rs h) [
      | inl (e, same, p, s) ↦ (
        0,
        omega arith,
        ap some same,
        subst (λ (q : VaultRoot). starts_with resolved q.resolved ≡ true) same s,
        subst (λ q. permitted restrict_to q ≡ true) e p,
      )
      | inr later ↦
          let (j, e, g, s, p) =
            select_sound (index + 1) restrict_to resolved rs {k = k} {r = r} later in
          (suc j, omega arith, g, s, p)
    ]

-- A path inside a root of the set: its absolute form is the root's path followed by the relative
-- form, and the relative form is plain names, with no `..`.
pub record IsConfined (roots : VaultSet) (path : VaultPath) : Type 0 where
  pub owner : VaultRoot
  pub at_id : get_elem? roots.roots path.root.value ≡ some owner
  pub splits : path.absolute ≡ owner.resolved ++ path.relative
  pub plain : All IsNormal path.relative
  pub within_root : IsCanonical owner.resolved

holds-append :
    (base rest : FilePath)
    → IsCanonical base
    → All IsNormal rest
    → (starts_with (base ++ rest) base && (base ++ rest) == join base rest) ≡ true
holds-append base rest c n =
    ground
      (arith, starts_with-append base rest, join-normals base rest c n, beq_refl (base ++ rest))

id_try_from-value : (i : ℕ) {id : VaultRootId} → id_try_from i ≡ ok id → id.value ≡ i
unfolding id_try_from
id_try_from-value i h = ground arith

module _ (host : Host) (law : IsLawful host) (roots : VaultSet)
    (valid : All IsRoot roots.roots) where
  build-IsConfined :
      (resolved : FilePath) (index : ℕ) (r : VaultRoot)
      → IsCanonical resolved
      → get_elem? roots.roots index ≡ some r
      → Ensures (λ p. IsConfined roots p × (p.root.value ≡ index)) (build host resolved (index, r))
  unfolding build
  build-IsConfined resolved index r canonical at_index = Ensures-bind _ _ λ rest stripped.
      Ensures-bind _ _ λ relative rel. Ensures-bind _ _ λ absolute abs. Ensures-bind _ _ λ root id.
        let splits = strip_prefix_sound r.resolved resolved (ok_or-eq-ok _ _ stripped) in
        let same_relative = law.same_path rest relative (ok_or-eq-ok _ _ rel) in
        let same_absolute = law.same_path resolved absolute (ok_or-eq-ok _ _ abs) in
        let same_index = id_try_from-value index id in
        let home = (All-at IsRoot roots.roots index valid at_index).canonical in
        Ensures-ok _ (
          record {
            owner = r;
            at_id = rw same_index at_index;
            splits = same_absolute ∙ splits ∙ ap (λ p. r.resolved ++ p) (sym same_relative);
            plain =
                subst (All IsNormal) (sym same_relative)
                  (IsCanonical-rest r.resolved rest home (subst IsCanonical splits canonical));
            within_root = home;
          },
          same_index,
        )

  finish-IsConfined :
      (candidate : FilePath) (lexical_root restrict_to : Option ℕ)
      → Ensures
          (λ p. IsConfined roots p × (permitted restrict_to p.root.value ≡ true))
          (finish host roots candidate lexical_root restrict_to)
  unfolding finish
  finish-IsConfined candidate lexical_root restrict_to = Ensures-bind _ _ λ resolved r.
      Ensures-bind _ _ λ selected s.
        let (j, e, g, _, p) = select_sound 0 restrict_to resolved roots.roots (ok_or-eq-ok _ _ s) in
        let found : get_elem? roots.roots selected.0 ≡ some selected.1 =
          subst (λ i. get_elem? roots.roots i ≡ some selected.1) (omega arith) g in
        let built =
          build-IsConfined resolved selected.0 selected.1
            (resolve_with_missing_suffix-IsCanonical host law candidate resolved r) found in
        record {
          at = λ path h.
              let (confined, same) = built.at path h in
              (confined, subst (λ i. permitted restrict_to i ≡ true) (sym same) p);
        }

  pub resolve_within_named_root-IsConfined :
      (index : ℕ) (remainder : Text)
      → Ensures
          (λ p. IsConfined roots p × (p.root.value ≡ index))
          (resolve_within_named_root host roots index remainder)
  unfolding resolve_within_named_root
  resolve_within_named_root-IsConfined index remainder = Ensures-bind _ _ λ r _.
      Ensures-if (remainder == []) _ _ (Ensures-err _) (
        Ensures-bind _ _ λ _ _.
          Ensures-map_err refused _
            (Ensures-if (is_absolute (components remainder)) _ _ (restricted _ _) (restricted _ _)))
    where
      restricted :
          (candidate : FilePath) (lexical_root : Option ℕ)
          → Ensures
              (λ p. IsConfined roots p × (p.root.value ≡ index))
              (finish host roots candidate lexical_root (some index))
      restricted candidate lexical_root =
          Ensures-weaken _ (λ p q. (q.0, (nat_beq_iff _ _).0 q.1))
            (finish-IsConfined candidate lexical_root (some index))

  resolve_plain-IsConfined :
      (raw : Text) → Ensures (IsConfined roots) (resolve_plain host roots raw)
  unfolding resolve_plain
  resolve_plain-IsConfined raw = Ensures-bind _ _ λ _ _.
      Ensures-if (is_absolute (components raw)) _ _ (unrestricted _ _) (
        Ensures-if (length roots.roots == 1) _ _ (Ensures-bind _ _ λ r _. unrestricted _ _)
          (Ensures-err _))
    where
      unrestricted :
          (candidate : FilePath) (lexical_root : Option ℕ)
          → Ensures (IsConfined roots) (typed (finish host roots candidate lexical_root none))
      unrestricted candidate lexical_root =
          Ensures-map_err refused _
            (Ensures-weaken _ (λ p q. q.0) (finish-IsConfined candidate lexical_root none))

  by_prefix-IsConfined :
      (raw : Text) (prefix : Option (ℕ × Text))
      → Ensures (IsConfined roots) (by_prefix host roots raw prefix)
  by_prefix-IsConfined raw none = resolve_plain-IsConfined raw
  by_prefix-IsConfined raw (some (index, remainder)) =
      Ensures-weaken _ (λ p q. q.0) (resolve_within_named_root-IsConfined index remainder)

  IsConfined-authorises : (path : VaultPath) → IsConfined roots path → authorises roots path ≡ true
  unfolding authorises
  IsConfined-authorises path c = rw c.at_id (
      subst (λ p. starts_with p c.owner.resolved && p == join c.owner.resolved path.relative ≡ true)
        (sym c.splits) (holds-append c.owner.resolved path.relative c.within_root c.plain))

  -- On a lawful host and over roots in the form that construction gives them, every path that
  -- validation returns is authorised by the set that it was validated against, and is its root's
  -- path with plain names behind it, so that no `..` leads out of the root.
  pub try_from-IsConfined :
      (raw : Text) (path : VaultPath)
      → try_from host roots raw ≡ ok path
      → IsConfined roots path × (authorises roots path ≡ true)
  unfolding try_from
  try_from-IsConfined raw path h =
      let confined = (Ensures-bind _ _ λ prefix _. by_prefix-IsConfined raw prefix).at path h in
      (confined, IsConfined-authorises path confined)
