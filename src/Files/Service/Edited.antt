-- ===== src/Files/Service/Edited.antt =====
-- What `edit_file` writes, and when it writes at all.
use context_os_mcp.Prelude.{
  bytes, ℕ, Bool, List, Option, Result, Text, [], ap₂, bind-eq-ok, err, false, inl, inr, list_eq,
  nat_eq, none, ok, ok-injective, option_eq, refl, some, subst, sym, true, ◌∷◌, ◌≡◌, ◌≢◌, ◌⊎◌,
}
use context_os_mcp.Exec.{Act, look, and_then, and_then-eq-ok, ◌>>=◌}
use context_os_mcp.Vault.Confine.{VaultPath, authorises}
use context_os_mcp.Hash.{ContentHash}
use context_os_mcp.Operation.{OperationEvent, OperationWarning, WriteMutation, WriteOutcome}
use context_os_mcp.Pipeline.{
  PipelineResult, write, routed_write, route_result, stamped, write_event,
}
use context_os_mcp.FilePath.{FilePath}
use context_os_mcp.Files.Mutate
use context_os_mcp.Files.Laws.{IsDisk}
use context_os_mcp.Files.Atomic.{Atomic, write-Atomic}
use context_os_mcp.Files.Error.{FsError}
use context_os_mcp.Files.Disk.{Disk}
use context_os_mcp.Files.Mutate.{hash_file}
use context_os_mcp.Files.Gate.{Shown, write-Shown}
use context_os_mcp.Files.Edit.{TextEdit, apply_exact_edit, apply_edits}
use context_os_mcp.Files.Edit.Exact.{IsExact, apply_exact_edit-IsExact}
use context_os_mcp.Files.Read.{Filesystem, ReadsDisk, ReadTextResult, read_text}
use context_os_mcp.Files.Service.{
  EditFileRequest, EditFileResult, FilesystemService, service_from, or_read, write_of,
  applied_result, apply_or_show, edit_file,
}

-- Each edit in turn replaces one occurrence.
abbrev pub AreExact : Text → List TextEdit → Text → Type 0
AreExact content [] result = content ≡ result
AreExact content (edit ∷ edits) result =
    (next : Text) × IsExact content edit next × AreExact next edits result

apply_edits-AreExact :
    (content : Text) (edits : List TextEdit) (path : VaultPath) {result : Text}
    → apply_edits content edits path ≡ ok result
    → AreExact content edits result
unfolding apply_edits
apply_edits-AreExact content [] path h = ok-injective h
apply_edits-AreExact content (edit ∷ edits) path h =
    let (next, here, later) = bind-eq-ok (apply_exact_edit content edit path) _ h in
    (
      next,
      apply_exact_edit-IsExact content edit path next here,
      apply_edits-AreExact next edits path later,
    )

module _ {W T : Type 0} (unified_diff : Text → Text → Text)
    (content : FilePath → W → Option (List ℕ)) (disk : Disk W) (law : IsDisk content disk)
    (reads : W → ReadsDisk) (vaults : Filesystem) (now : Act W T)
    (route : OperationEvent T → Act W (List OperationWarning)) where
  abbrev pub service : FilesystemService W T
  service = service_from disk reads vaults now route

  -- The caller forces the edit, or the file has the hash that the caller expects, which is that of
  -- the text that was read unless the request names one.
  abbrev pub Permitted : EditFileRequest → ReadTextResult → W → Type 0
  Permitted request current w =
      (request.force ≡ true)
      ⊎ ((h : ContentHash) × (or_read request.expected_hash current.content_hash ≡ some h)
          × (hash_file disk vaults.roots request.path.absolute w ≡ ok h))

  -- How an edit ends after its write, which leaves the world `between`: a failure is that of the
  -- write, and nobody is told; a success has the hash that was written, and the services are told of
  -- its event.
  abbrev pub Ends : Result FsError WriteOutcome → W → Result FsError (EditFileResult T) × W → Type 0
  Ends (err e) between (result, w') = (result ≡ err e) × (w' ≡ between)
  Ends (ok outcome) between (result, w') =
      (answer : EditFileResult T) × (event : OperationEvent T) × (result ≡ ok answer)
      × (answer.applied ≡ true)
      × (answer.content_hash ≡ outcome.content_hash)
      × (answer.event ≡ some event)
      × (route event (now between).1 ≡ (answer.warnings, w'))

  -- An edit that goes as far as its write, of the modified text to the path of the request.
  pub record IsWritten (request : EditFileRequest) (w : W)
      (run : Result FsError (EditFileResult T) × W) : Type 0 where
    pub current : ReadTextResult
    pub modified : Text
    pub is_read :
        read_text (reads w) vaults (record { path = request.path; limit = none }) ≡ ok current
    pub exact : AreExact current.content request.edits modified
    pub is_wet : request.dry_run ≡ false
    pub persisted : Result FsError WriteOutcome
    pub between : W
    pub atomic :
        Atomic content disk law vaults.roots request.path.absolute
          (bytes modified)
          w
          persisted
          between
    pub ends : Ends persisted between run
    pub allowed :
        (answer : EditFileResult T)
        → run.0 ≡ ok answer
        → (authorises vaults.roots request.path ≡ true) × Permitted request current w

  -- An edit that stops before its write: the file is not read, the edits do not apply to what was
  -- read, or the request is a dry run, of which the answer says that nothing was applied.
  abbrev pub IsKept : EditFileRequest → W → Result FsError (EditFileResult T) × W → Type 0
  IsKept request w (result, w') =
      (w' ≡ w)
      × (((e : FsError) × (result ≡ err e)
            × (read_text (reads w) vaults (record { path = request.path; limit = none }) ≡ err e))
          ⊎ ((e : FsError) × (current : ReadTextResult) × (result ≡ err e)
              × (read_text (reads w) vaults (record { path = request.path; limit = none })
                  ≡ ok current)
              × (apply_edits current.content request.edits request.path ≡ err e))
          ⊎ ((answer : EditFileResult T) × (result ≡ ok answer)
              × (request.dry_run ≡ true)
              × (answer.applied ≡ false)))

  permitted :
      (request : EditFileRequest) (current : ReadTextResult) (modified : Text) (w : W)
      → Shown disk vaults.roots (write_of request current modified) w
      → Permitted request current w
  permitted request current modified w (inl forced) = inl forced
  permitted request current modified w (inr (inr (h, there, expected, hash))) =
      inr (h, expected, hash)
  permitted request current modified w (inr (inl (missing, no_hash))) =
      absurd (named request.expected_hash no_hash)
    where
      named : (o : Option ContentHash) → or_read o current.content_hash ≢ none
      named none = λ e. cc
      named (some h) = λ e. cc

  routed-Shown :
      (mutation : WriteMutation) (w : W) {value : PipelineResult T WriteOutcome} {w' : W}
      → routed_write service.pipeline mutation w ≡ (ok value, w')
      → (authorises vaults.roots mutation.path ≡ true) × Shown disk vaults.roots mutation w
  unfolding routed_write write service_from
  routed-Shown mutation w h =
      let (made, w1, written, _) = and_then-eq-ok _ _ h in
      let (outcome, w2, persisted, _) = and_then-eq-ok _ _ written in
      write-Shown disk vaults.roots mutation w w2 outcome persisted

  ending :
      (request : EditFileRequest) (current : ReadTextResult) (modified : Text)
      (x : Result FsError WriteOutcome × W)
      → Ends x.0 x.1 (
          and_then
            (and_then
              (and_then x (λ value.
                stamped now value
                  (λ at. some (write_event (write_of request current modified) value at))))
              (route_result service.pipeline))
            (λ written.
              look
                (λ w. ok (applied_result unified_diff service request current modified written))))
  unfolding route_result service_from
  ending request current modified (err e, w) = (refl, refl)
  ending request current modified (ok outcome, w) = (_, _, refl, refl, refl, refl, refl)

  written-Ends :
      (request : EditFileRequest) (current : ReadTextResult) (modified : Text) (w : W)
      → Ends
          (Mutate.write disk vaults.roots (write_of request current modified) w).0
          (Mutate.write disk vaults.roots (write_of request current modified) w).1
          (apply_or_show unified_diff service false request current modified w)
  unfolding ◌>>=◌ routed_write write service_from
  written-Ends request current modified w =
      ending request current modified
        (Mutate.write disk vaults.roots (write_of request current modified) w)

  after_modified :
      (request : EditFileRequest) (current : ReadTextResult) (modified : Text) (w : W) (dry : Bool)
      → request.dry_run ≡ dry
      → read_text (reads w) vaults (record { path = request.path; limit = none }) ≡ ok current
      → AreExact current.content request.edits modified
      → IsKept request w (apply_or_show unified_diff service dry request current modified w)
        ⊎ IsWritten request w (apply_or_show unified_diff service dry request current modified w)
  unfolding ◌>>=◌ service_from
  after_modified request current modified w true dry is_read exact =
      inl (refl, inr (inr (_, refl, dry, refl)))
  after_modified request current modified w false dry is_read exact = inr (record {
    current = current;
    modified = modified;
    is_read = is_read;
    exact = exact;
    is_wet = dry;
    persisted = (Mutate.write disk vaults.roots (write_of request current modified) w).0;
    between = (Mutate.write disk vaults.roots (write_of request current modified) w).1;
    atomic = write-Atomic content disk law vaults.roots (write_of request current modified) w;
    ends = written-Ends request current modified w;
    allowed = λ answer e.
        let (value, w1, written, _) =
          and_then-eq-ok (routed_write service.pipeline (write_of request current modified) w) _
            (ap₂ (λ a b. (a, b)) e refl) in
        let (authorised, shown) = routed-Shown (write_of request current modified) w written in
        (authorised, permitted request current modified w shown);
  })

  after_read :
      (request : EditFileRequest) (current : ReadTextResult) (w : W) (m : Result FsError Text)
      → apply_edits current.content request.edits request.path ≡ m
      → read_text (reads w) vaults (record { path = request.path; limit = none }) ≡ ok current
      → (r : Result FsError (EditFileResult T) × W)
      → r ≡ and_then (m, w) (apply_or_show unified_diff service request.dry_run request current)
      → IsKept request w r ⊎ IsWritten request w r
  after_read request current w (err e) edits is_read r same =
      subst (λ r. IsKept request w r ⊎ IsWritten request w r) (sym same)
        (inl (refl, inr (inl (e, current, refl, is_read, edits))))
  after_read request current w (ok modified) edits is_read r same =
      subst (λ r. IsKept request w r ⊎ IsWritten request w r) (sym same)
        (after_modified request current modified w request.dry_run refl is_read
          (apply_edits-AreExact current.content request.edits request.path edits))

  after_start :
      (request : EditFileRequest) (w : W) (m : Result FsError ReadTextResult)
      → read_text (reads w) vaults (record { path = request.path; limit = none }) ≡ m
      → (r : Result FsError (EditFileResult T) × W)
      → r
        ≡ and_then
            (m, w)
            (λ current.
              look (λ w. apply_edits current.content request.edits request.path) >>= λ modified.
              apply_or_show unified_diff service request.dry_run request current modified)
      → IsKept request w r ⊎ IsWritten request w r
  unfolding ◌>>=◌
  after_start request w (err e) is_read r same =
      subst (λ r. IsKept request w r ⊎ IsWritten request w r) (sym same)
        (inl (refl, inl (e, refl, is_read)))
  after_start request w (ok current) is_read r same =
      after_read request current w _ refl is_read r same

  -- On a disk that keeps its laws, with any clock, services and differ, and for every request:
  -- either the world is as it was, and the edit ended with the error of its read or of its edits on
  -- what was read, or was a dry run whose answer says that nothing was applied; or the request is no
  -- dry run, the file was read, each edit in turn replaced an occurrence of its old text in what was
  -- read and nothing else, and the outcome was written at the path of the request: if the write
  -- succeeds, the file there has the bytes of the outcome and every other file is as it was, and the
  -- answer says that it was applied, with the hash of the write and the warnings of the services,
  -- which are told after the write; if the write fails, every file is as it was and the edit ends
  -- with the failure. An edit that succeeds has an authorised path, and is forced or found the file
  -- on disk with the hash that the request names, or that of the text that was read where it names
  -- none.
  pub edit_file-IsEdited :
      (request : EditFileRequest) (w : W)
      → IsKept request w (edit_file unified_diff service request w)
        ⊎ IsWritten request w (edit_file unified_diff service request w)
  unfolding edit_file ◌>>=◌ service_from
  edit_file-IsEdited request w = after_start request w _ refl _ refl
