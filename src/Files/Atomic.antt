-- ===== src/Files/Atomic.antt =====
-- What a write does to the files, whatever step fails.
use context_os_mcp.Prelude.{
  Bool, List, Option, Result, bytes, err, false, none, ok, refl, some, subst, true, ℕ, ◌≡◌, ◌≢◌,
}
use context_os_mcp.Exec.{answered, attempt}
use context_os_mcp.FilePath.{FilePath}
use context_os_mcp.Vault.Set.{VaultSet}
use context_os_mcp.Operation.{WriteMutation, WriteOutcome}
use context_os_mcp.Files.Error.{persist_temporary, FsError}
use context_os_mcp.Files.Disk.{Disk}
use context_os_mcp.Files.Steps.{Runs, Runs-bind, Runs-looked, Runs-attempted, Runs-weaken}
use context_os_mcp.Files.Mutate.{replace, write, dropping, with_temporary}
use context_os_mcp.Files.Gate.{revalidate-authorises}
use context_os_mcp.Files.Laws.{Kept, KeptBut, IsDisk}

module _ {W : Type 0} (content : FilePath → W → Option (List ℕ)) (disk : Disk W)
    (law : IsDisk content disk) (roots : VaultSet) where
  -- From `w` to `w'`: a failure leaves every file as it was; a success replaces the target by the
  -- new content and leaves every other file as it was.
  abbrev pub Atomic : {A : Type 0} → FilePath → List ℕ → W → Result FsError A → W → Type 0
  Atomic target new w (err e) w' = Kept content w w'
  Atomic target new w (ok a) w' = KeptBut content target w w' × (content target w' ≡ some new)

  module _ (target temporary : FilePath) (new : List ℕ) (w : W)
      (fresh : (b : List ℕ) → content temporary w ≢ some b) where
    -- While the temporary file is open: it is no file of `w`, so every file of `w` but it is.
    abbrev Open : {A : Type 0} → Result FsError A → W → Type 0
    Open (err e) w' = KeptBut content temporary w w'
    Open (ok a) w' =
        ((q : FilePath) (b : List ℕ)
          → q ≢ temporary
          → q ≢ target
          → content q w ≡ some b
          → content q w' ≡ some b)
        × (content target w' ≡ some new)

    replace-Open :
        (u : W)
        → KeptBut content temporary w u
        → Runs (replace disk roots target new temporary) u Open
    unfolding replace
    replace-Open u k₀ =
        let u₁ = (disk.write_temporary temporary new u).1 in
        let u₂ = (disk.sync_temporary temporary u₁).1 in
        let u₃ = (disk.after_flush target u₂).1 in
        let k₁ : KeptBut content temporary w u₁ =
          λ q b n h. law.write_temporary temporary new u q b n (k₀ q b n h) in
        let k₂ : KeptBut content temporary w u₂ =
          λ q b n h. law.sync_temporary temporary u₁ q b (k₁ q b n h) in
        let k₃ : KeptBut content temporary w u₃ =
          λ q b n h. law.after_flush target u₂ q b (k₂ q b n h) in
        let now = law.sync_temporary temporary u₁ temporary new in
        let later = law.after_flush target u₂ temporary new in
        Runs-attempted u Open _ _ _
          (λ ok₁.
            Runs-attempted u₁ Open _ _ _
              (λ ok₂.
                Runs-attempted u₂ Open _ _ _
                  (λ ok₃. last u₃ k₃ (later (now (law.written temporary new u ok₁)))) (λ _. k₃))
              (λ _. k₂))
          (λ _. k₁)
      where
        go :
            (v : W)
            → KeptBut content temporary w v
            → content temporary v ≡ some new
            → (x : Bool) → (disk.persist temporary target v).0 ≡ x
            → Open
                (answered (persist_temporary target) (x, (disk.persist temporary target v).1)).0
                (answered (persist_temporary target) (x, (disk.persist temporary target v).1)).1
        go v k c true e = (
          λ q b n m h. law.persist_others temporary target q b v n m (k q b n h),
          law.persisted temporary target new v e c,
        )
        go v k c false e = λ q b n h. law.persist_failed temporary target v e q b (k q b n h)

        last :
            (v : W)
            → KeptBut content temporary w v
            → content temporary v ≡ some new
            → Runs (attempt (persist_temporary target) (disk.persist temporary target)) v Open
        last v k c = record { holds = go v k c (disk.persist temporary target v).0 refl }

    -- A file of `w` is not the temporary one.
    other : (q : FilePath) (b : List ℕ) → content q w ≡ some b → q ≢ temporary
    other q b h same = fresh b (subst (λ p. content p w ≡ some b) same h)

    dropping-Atomic :
        (x : Result FsError (Unit {0}) × W)
        → Open x.0 x.1
        → Atomic target new w
            (dropping disk roots temporary x).0
            (dropping disk roots temporary x).1
    dropping-Atomic (ok a, u) (k, c) = (λ q b n h. k q b (other q b h) n h, c)
    dropping-Atomic (err e, u) k =
        λ q b h. law.drop_temporary temporary u q b (other q b h) (k q b (other q b h) h)

  -- From the directory that is made to the file that is in place.
  module _ (target parent : FilePath) (new : List ℕ) (w v : W) (kept : Kept content w v) where
    with_temporary-Atomic :
        (x : Option FilePath × W)
        → Kept content v x.1
        → ((t : FilePath) (b : List ℕ) → x.0 ≡ some t → content t v ≢ some b)
        → Atomic target new w
            (with_temporary disk roots target new x).0
            (with_temporary disk roots target new x).1
    with_temporary-Atomic (none, u) k f = λ q b h. k q b (kept q b h)
    with_temporary-Atomic (some temporary, u) k f =
        let fresh : (b : List ℕ) → content temporary w ≢ some b =
          λ b h. f temporary b refl (kept temporary b h) in
        dropping-Atomic target temporary new w fresh (replace disk roots target new temporary u)
          (replace-Open target temporary new w fresh u (λ q b n h. k q b (kept q b h))).holds

    placed :
        Runs
          (λ u. with_temporary disk roots target new (disk.new_temporary parent u))
          v
          (Atomic target new w)
    placed = record {
      holds =
          with_temporary-Atomic (disk.new_temporary parent v) (law.new_temporary parent v)
            (λ t b e. law.fresh parent t b v e);
    }

  -- On a disk that keeps its laws, whatever step of a write fails, every file is as it was
  -- before; if it succeeds, the file at its path has the new content and every other file is as
  -- it was.
  pub write-Atomic :
      (request : WriteMutation) (w : W)
      → Atomic request.path.absolute
          (bytes request.content)
          w
          (write disk roots request w).0
          (write disk roots request w).1
  unfolding write
  write-Atomic request w = steps.holds
    where
      Goal : FilePath → Result FsError WriteOutcome → W → Type 0
      Goal target = Atomic target (bytes request.content) w

      nothing : Kept content w w
      nothing q b h = h

      steps : Runs (write disk roots request) w (Goal request.path.absolute)
      steps =
          Runs-looked w (Goal request.path.absolute) _ _
            (λ target t.
              Runs-weaken {P = Goal target}
                (λ r u done.
                  subst (λ p. Goal p r u)
                    (revalidate-authorises (disk.host w) roots request.path {target = target} t).0
                    done)
                (Runs-looked w (Goal target) _ _
                  (λ existed _.
                    Runs-looked w (Goal target) _ _
                      (λ _ _.
                        Runs-looked w (Goal target) _ _
                          (λ above _.
                            let v = (disk.create_dir_all above w).1 in
                            let kept = law.create_dir_all above w in
                            Runs-attempted w (Goal target) _ _ _
                              (λ _.
                                Runs-looked v (Goal target) _ _
                                  (λ _ _.
                                    Runs-bind v (Goal target)
                                      (Atomic target (bytes request.content) w) _ _
                                      (placed target above (bytes request.content) w v kept)
                                      (λ _ u done. record { holds = done }) (λ _ u failed. failed))
                                  (λ _. kept))
                              (λ _. kept))
                          (λ _. nothing))
                      (λ _. nothing))
                  (λ _. nothing)))
            (λ _. nothing)
