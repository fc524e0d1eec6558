-- ===== src/Files/Grow.antt =====
-- What an append does to the files.
use context_os_mcp.Prelude.{
  List, Option, Result, [], arith, bytes, err, if◌then◌else◌, length, nat_eq, none, ok, refl, some,
  subst, true, ℕ, ◌++◌, ◌==◌, ◌≡◌,
}
use context_os_mcp.FilePath.{FilePath}
use context_os_mcp.Vault.Set.{VaultSet}
use context_os_mcp.Operation.{AppendMutation}
use context_os_mcp.Files.Error.{FsError}
use context_os_mcp.Files.Disk.{Disk}
use context_os_mcp.Files.Steps.{Runs, Runs-looked, Runs-attempted, Runs-weaken}
use context_os_mcp.Files.Mutate.{required, append}
use context_os_mcp.Files.Gate.{revalidate-authorises}
use context_os_mcp.Files.Laws.{KeptBut, IsDisk}

required-some : {A : Type 0} (o : Option A) (e : FsError) {a : A} → required o e ≡ ok a → o ≡ some a
required-some (some b) e h = ground arith
required-some none e h = cc

module _ {W : Type 0} (content : FilePath → W → Option (List ℕ)) (disk : Disk W)
    (law : IsDisk content disk) (roots : VaultSet) (request : AppendMutation) where
  -- The preamble is for an empty file only.
  abbrev pub added : ℕ → List ℕ
  added size = bytes (if size == 0 then request.preamble ++ request.content else request.content)

  abbrev pub old_content : Option (List ℕ) → List ℕ
  old_content none = []
  old_content (some old) = old

  -- From `w` to `w'`: the other files are as they were, and a success leaves the old content of the
  -- target, or none, with the record behind it.
  abbrev pub Grown : {A : Type 0} → FilePath → W → Result FsError A → W → Type 0
  Grown target w (err e) w' = KeptBut content target w w'
  Grown target w (ok a) w' =
      KeptBut content target w w'
      × (content target w'
          ≡ some
              (old_content (content target w) ++ added (length (old_content (content target w)))))

  opened_content :
      (target above : FilePath) (w : W) (old : Option (List ℕ))
      → content target w ≡ old
      → (disk.open_append target (disk.create_dir_all above w).1).0 ≡ true
      → content target (disk.open_append target (disk.create_dir_all above w).1).1
        ≡ some (old_content old)
  opened_content target above w none h o = law.opened target _ o (law.no_file_made above target w h)
  opened_content target above w (some old) h o =
      law.open_append target _ target old (law.create_dir_all above w target old h)

  -- On a disk that keeps its laws, a successful append adds exactly its record at the end of the
  -- file at its path, behind the preamble if the file was new or empty; no append changes
  -- another file, also when it fails.
  pub append-Grown :
      (w : W)
      → Grown request.path.absolute w
          (append disk roots request w).0
          (append disk roots request w).1
  unfolding append
  append-Grown w = steps.holds
    where
      nothing : (target : FilePath) → KeptBut content target w w
      nothing target q b n h = h

      steps : Runs (append disk roots request) w (Grown request.path.absolute w)
      steps =
          Runs-looked w (Grown request.path.absolute w) _ _
            (λ target t.
              Runs-weaken {P = Grown target w}
                (λ r u done.
                  subst (λ p. Grown p w r u)
                    (revalidate-authorises (disk.host w) roots request.path {target = target} t).0
                    done)
                (Runs-looked w (Grown target w) _ _
                  (λ existed _.
                    Runs-looked w (Grown target w) _ _
                      (λ above _.
                        let v = (disk.create_dir_all above w).1 in
                        let u = (disk.open_append target v).1 in
                        let k₁ : KeptBut content target w v =
                          λ q b n h. law.create_dir_all above w q b h in
                        let k₂ : KeptBut content target w u =
                          λ q b n h. law.open_append target v q b (k₁ q b n h) in
                        Runs-attempted w (Grown target w) _ _ _
                          (λ _.
                            Runs-looked v (Grown target w) _ _
                              (λ _ _.
                                Runs-attempted v (Grown target w) _ _ _
                                  (λ o.
                                    Runs-looked u (Grown target w) _ _
                                      (λ size s.
                                        let old = old_content (content target w) in
                                        let there =
                                          opened_content target above w (content target w) refl o in
                                        let same : size ≡ length old =
                                          law.length_of target old size u there
                                            (required-some _ _ s) in
                                        let x = (disk.append_bytes target (added size) u).1 in
                                        let k₃ : KeptBut content target w x = λ q b n h.
                                          law.append_bytes target (added size) u q b n
                                            (k₂ q b n h) in
                                        Runs-attempted u (Grown target w) _ _ _
                                          (λ a.
                                            let y = (disk.sync_data target x).1 in
                                            let k₄ : KeptBut content target w y =
                                              λ q b n h. law.sync_data target x q b (k₃ q b n h) in
                                            let now =
                                              law.appended target old (added size) u a there in
                                            let final =
                                              law.sync_data target x target (old ++ added size)
                                                now in
                                            Runs-attempted x (Grown target w) _ _ _
                                              (λ _. record {
                                                holds = (
                                                  k₄,
                                                  subst
                                                      (λ n.
                                                        content target y ≡ some (old ++ added n))
                                                      same final,
                                                );
                                              })
                                              (λ _. k₄))
                                          (λ _. k₃))
                                      (λ _. k₂))
                                  (λ _. k₂))
                              (λ _. k₁))
                          (λ _. k₁))
                      (λ _. nothing target))
                  (λ _. nothing target)))
            (λ _. nothing request.path.absolute)
