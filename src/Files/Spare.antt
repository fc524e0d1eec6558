-- ===== src/Files/Spare.antt =====
-- Which files a move and a deletion leave alone.
use context_os_mcp.Prelude.{
  Bool, Bool-cases, List, Option, Result, false, if◌then◌else◌, inl, inr, not, ok, refl, some,
  starts_with, subst, true, ℕ, ◌&&◌, ◌≡◌, ◌≢◌,
}
use context_os_mcp.Exec.{Act, attempt, answered}
use context_os_mcp.FilePath.{FilePath, component_eq}
use context_os_mcp.Vault.Set.{VaultSet}
use context_os_mcp.Operation.{MoveMutation, DeleteMode, trash, hard, hard_recursive, DeleteMutation}
use context_os_mcp.Files.Error.{FsError}
use context_os_mcp.Files.Disk.{
  Disk, directory, regular, special, Metadata, of_kind, missing, unreadable, FirstEntry, no_entry,
  some_entry, list_failed, entry_failed,
}
use context_os_mcp.Files.Steps.{Runs, Runs-bind, Runs-looked, Runs-attempted, Runs-weaken}
use context_os_mcp.Files.Mutate.{
  is_directory, empty, is_hard_recursive, vacant, remove, delete, move_path,
}
use context_os_mcp.Files.Gate.{revalidate-authorises}
use context_os_mcp.Files.Laws.{KeptBut, KeptOutside, IsDisk}

is_directory-regular :
    (target : FilePath) (m : Metadata) → is_directory target m ≡ ok false → m ≡ of_kind regular
is_directory-regular target missing h = cc
is_directory-regular target unreadable h = cc
is_directory-regular target (of_kind directory) h = cc
is_directory-regular target (of_kind regular) h = refl
is_directory-regular target (of_kind special) h = cc

empty-no_entry : (target : FilePath) (e : FirstEntry) → empty target e ≡ ok tt → e ≡ no_entry
empty-no_entry target no_entry h = refl
empty-no_entry target some_entry h = cc
empty-no_entry target list_failed h = cc
empty-no_entry target entry_failed h = cc

module _ {W : Type 0} (content : FilePath → W → Option (List ℕ)) (disk : Disk W)
    (law : IsDisk content disk) (roots : VaultSet) where
  -- No file is strictly below the target.
  abbrev Bare : FilePath → W → Type 0
  Bare target w =
      (q : FilePath) (b : List ℕ) → starts_with q target ≡ true → q ≢ target → content q w ≢ some b

  spared :
      (target : FilePath) (w w' : W)
      → Bare target w
      → KeptOutside content target w w'
      → KeptBut content target w w'
  spared target w w' bare kept q b n h = elim (Bool-cases (starts_with q target)) [
    | inl below ↦ absurd (bare q b below n h)
    | inr outside ↦ kept q b outside h
  ]

  attempted :
      (e : FsError) (target : FilePath) (act : Act W Bool) (w : W)
      → KeptBut content target w (act w).1
      → KeptBut content target w (attempt e act w).1
  attempted e target act w k = go (act w) k
    where
      go : (x : Bool × W) → KeptBut content target w x.1 → KeptBut content target w (answered e x).1
      go (true, u) m = m
      go (false, u) m = m

  remove-Spares :
      (mode : DeleteMode) (is_dir : Bool) (target : FilePath) (w : W)
      → is_hard_recursive mode ≡ false
      → Bare target w
      → KeptBut content target w (remove disk roots mode is_dir target w).1
  unfolding remove
  remove-Spares trash is_dir target w m bare =
      attempted _ target (disk.trash target) w (spared target w _ bare (law.trash target w))
  remove-Spares hard true target w m bare =
      attempted _ target (disk.remove_dir target) w (λ q b n h. law.remove_dir target w q b h)
  remove-Spares hard false target w m bare =
      attempted _ target (disk.remove_file target) w (law.remove_file target w)
  remove-Spares hard_recursive is_dir target w m bare = cc

  target-Bare :
      (mode : DeleteMode) (is_dir : Bool) (target : FilePath) (w : W)
      → is_hard_recursive mode ≡ false
      → is_directory target (disk.metadata target w) ≡ ok is_dir
      → (if is_dir && not (is_hard_recursive mode)
          then empty target (disk.read_dir target w)
          else ok tt)
        ≡ ok tt
      → Bare target w
  target-Bare mode true target w m d e q b below n h =
      law.read_dir_empty target q b w (empty-no_entry target _ (rw m at e)) below n h
  target-Bare mode false target w m d e q b below n h =
      law.metadata_regular target q b w (is_directory-regular target _ d) below n h

  -- On a disk that keeps its laws, a deletion that is not recursive loses no file but the one at
  -- its path, whether it succeeds or fails.
  pub delete-Spares :
      (request : DeleteMutation) (w : W)
      → is_hard_recursive request.mode ≡ false
      → KeptBut content request.path.absolute w (delete disk roots request w).1
  unfolding delete
  delete-Spares request w m = steps.holds
    where
      Goal : {A : Type 0} → FilePath → Result FsError A → W → Type 0
      Goal target r u = KeptBut content target w u

      nothing : (target : FilePath) → KeptBut content target w w
      nothing target q b n h = h

      steps : Runs (delete disk roots request) w (Goal request.path.absolute)
      steps =
          Runs-looked w (Goal request.path.absolute) _ _
            (λ target t.
              Runs-weaken {P = Goal target}
                (λ r u done.
                  subst (λ p. KeptBut content p w u)
                    (revalidate-authorises (disk.host w) roots request.path {target = target} t).0
                    done)
                (Runs-looked w (Goal target) _ _
                  (λ is_dir d.
                    Runs-looked w (Goal target) _ _
                      (λ _ e.
                        Runs-bind w (Goal target) (Goal target) _ _
                          (record {
                            holds =
                                remove-Spares request.mode is_dir target w m
                                  (target-Bare request.mode is_dir target w m d e);
                          })
                          (λ _ u done. record { holds = done }) (λ _ u done. done))
                      (λ _. nothing target))
                  (λ _. nothing target)))
            (λ _. nothing request.path.absolute)

  -- On a disk that keeps its laws, a move loses and overwrites no file outside its source,
  -- whether it succeeds or fails.
  pub move_path-Spares :
      (request : MoveMutation) (w : W)
      → KeptOutside content request.source.absolute w (move_path disk roots request w).1
  unfolding move_path
  move_path-Spares request w = steps.holds
    where
      Goal : {A : Type 0} → FilePath → Result FsError A → W → Type 0
      Goal source r u = KeptOutside content source w u

      nothing : (source : FilePath) → KeptOutside content source w w
      nothing source q b n h = h

      moved :
          (source destination above : FilePath)
          → vacant destination (disk.exists destination w) ≡ ok tt
          → KeptOutside content source w
              (disk.rename source destination (disk.create_dir_all above w).1).1
      moved source destination above e q b n h = elim (Bool-cases (starts_with q destination)) [
        | inl below ↦ absurd (
            let there = law.exists_content destination q b w h below in
            let refused = rw there at e in cc)
        | inr outside ↦
            law.rename source destination q b (disk.create_dir_all above w).1 n outside
              (law.create_dir_all above w q b h)
      ]

      steps : Runs (move_path disk roots request) w (Goal request.source.absolute)
      steps =
          Runs-looked w (Goal request.source.absolute) _ _
            (λ source s.
              Runs-weaken {P = Goal source}
                (λ r u done.
                  subst (λ p. KeptOutside content p w u)
                    (revalidate-authorises (disk.host w) roots request.source {target = source} s).0
                    done)
                (Runs-looked w (Goal source) _ _
                  (λ _ _.
                    Runs-looked w (Goal source) _ _
                      (λ destination d.
                        Runs-looked w (Goal source) _ _
                          (λ _ e.
                            Runs-looked w (Goal source) _ _
                              (λ above a.
                                let v = (disk.create_dir_all above w).1 in
                                let made : KeptOutside content source w v =
                                  λ q b n h. law.create_dir_all above w q b h in
                                let at_last = moved source destination above e in
                                Runs-attempted w (Goal source) _ _ _
                                  (λ _.
                                    Runs-looked v (Goal source) _ _
                                      (λ _ _.
                                        Runs-attempted v (Goal source) _ _ _
                                          (λ _. record { holds = at_last }) (λ _. at_last))
                                      (λ _. made))
                                  (λ _. made))
                              (λ _. nothing source))
                          (λ _. nothing source))
                      (λ _. nothing source))
                  (λ _. nothing source)))
            (λ _. nothing request.source.absolute)
