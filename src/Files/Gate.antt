-- ===== src/Files/Gate.antt =====
-- Which writes are allowed to replace a file.
use context_os_mcp.Prelude.{
  Bool, Bool-cases, Option, Result, ap, arith, err, false, inl, inr, none, ok, ok-injective, refl,
  some, subst, sym, true, ◌==◌, ◌≡◌, ◌⊎◌,
}
use context_os_mcp.FilePath.{FilePath}
use context_os_mcp.Host.{Host}
use context_os_mcp.Vault.Set.{VaultSet}
use context_os_mcp.Vault.Confine.{VaultPath, Fault, refused, panicked, authorises}
use context_os_mcp.Hash.{ContentHash, hash_eq}
use context_os_mcp.Operation.{WriteMutation, WriteOutcome}
use context_os_mcp.Files.Error.{FsError}
use context_os_mcp.Files.Disk.{Disk}
use context_os_mcp.Files.Steps.{Runs, Runs-looked}
use context_os_mcp.Files.Mutate.{
  refreshed, revalidate, gate, hash_file, validate_expected_hash, write,
}

refreshed-target :
    (path : VaultPath) (r : Result Fault VaultPath) {target : FilePath}
    → refreshed path r ≡ ok target
    → target ≡ path.absolute
refreshed-target path (ok again) {target} h = ground arith
refreshed-target path (err (refused e)) h = cc
refreshed-target path (err panicked) h = cc

-- A path that is validated again is authorised, and stands for the same file.
pub revalidate-authorises :
    (host : Host) (roots : VaultSet) (path : VaultPath) {target : FilePath}
    → revalidate host roots path ≡ ok target
    → (target ≡ path.absolute) × (authorises roots path ≡ true)
unfolding revalidate
revalidate-authorises host roots path {target} h = elim (Bool-cases (authorises roots path)) [
  | inl allowed ↦ (refreshed-target path _ {target = target} (rw allowed at h), allowed)
  | inr denied ↦ absurd (let e = rw denied at h in cc)
]

gate-ok :
    (target : FilePath) (existed : Bool) (expected : Option ContentHash)
    (current : Result FsError ContentHash)
    → gate target existed expected current ≡ ok tt
    → ((existed ≡ false) × (expected ≡ none))
      ⊎ ((h : ContentHash) × (existed ≡ true) × (expected ≡ some h) × (current ≡ ok h))
gate-ok target false none current h = inl (refl, refl)
gate-ok target false (some x) current h = cc
gate-ok target true none (ok c) h = cc
gate-ok target true none (err e) h = cc
gate-ok target true (some x) (err e) h = cc
gate-ok target true (some x) (ok c) h = elim (Bool-cases (c == x)) [
  | inl same ↦ inr (x, refl, refl, ap ok ((hash_eq.equal_iff c x).0 same))
  | inr other ↦ absurd (let e = rw other at h in cc)
]

module _ {W : Type 0} (disk : Disk W) (roots : VaultSet) where
  -- What the caller of a write has shown: it forces the write, or expects no file where there is
  -- none, or names the hash of the file that is there.
  abbrev pub Shown : WriteMutation → W → Type 0
  Shown request w =
      (request.force ≡ true)
      ⊎ (((disk.exists request.path.absolute w ≡ false) × (request.expected_hash ≡ none))
          ⊎ ((h : ContentHash) × (disk.exists request.path.absolute w ≡ true)
              × (request.expected_hash ≡ some h)
              × (hash_file disk roots request.path.absolute w ≡ ok h)))

  validate-Shown :
      (request : WriteMutation) (w : W)
      → validate_expected_hash disk roots request.path.absolute
          (disk.exists request.path.absolute w)
          request
          w
        ≡ ok tt
      → Shown request w
  unfolding validate_expected_hash
  validate-Shown request w h = elim (Bool-cases request.force) [
    | inl forced ↦ inl forced
    | inr gated ↦ inr (
        gate-ok request.path.absolute (disk.exists request.path.absolute w) request.expected_hash
          (hash_file disk roots request.path.absolute w) (rw gated at h))
  ]

  -- A write that succeeds is to an authorised path, and its caller forced it, or expected no file
  -- and there was none, or expected the hash of the content that was there.
  pub write-Shown :
      (request : WriteMutation) (w w' : W) (outcome : WriteOutcome)
      → write disk roots request w ≡ (ok outcome, w')
      → (authorises roots request.path ≡ true) × Shown request w
  unfolding write
  write-Shown request w w' outcome h =
      steps.holds outcome (ap (λ (p : Result FsError WriteOutcome × W). p.0) h)
    where
      Goal : Result FsError WriteOutcome → W → Type 0
      Goal r u =
          (o : WriteOutcome) → r ≡ ok o → (authorises roots request.path ≡ true) × Shown request w

      steps : Runs (write disk roots request) w Goal
      steps =
          Runs-looked w Goal _ _
            (λ target t.
              Runs-looked w Goal _ _
                (λ existed x.
                  Runs-looked w Goal _ _
                    (λ _ g.
                      let (same, authorised) =
                        revalidate-authorises (disk.host w) roots request.path {target = target}
                          t in
                      let here : disk.exists target w ≡ existed = ok-injective x in
                      let gated : validate_expected_hash disk roots target (disk.exists target w)
                            request w
                          ≡ ok tt =
                        subst (λ b. validate_expected_hash disk roots target b request w ≡ ok tt)
                          (sym here) g in
                      let shown = validate-Shown request w (
                        subst
                          (λ t.
                            validate_expected_hash disk roots t (disk.exists t w) request w ≡ ok tt)
                          same gated) in
                      record { holds = λ o k. (authorised, shown) })
                    (λ e o k. absurd (cc)))
                (λ e o k. absurd (cc)))
            (λ e o k. absurd (cc))
