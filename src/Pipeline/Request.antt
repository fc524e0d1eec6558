-- ===== src/Pipeline/Request.antt =====
-- The six mutations of the pipeline as one request type, so that a statement can range over all
-- of them.
use context_os_mcp.Prelude.{Bool, List, Result, [], err, if◌then◌else◌, ok, true, ◌∷◌}
use context_os_mcp.Exec.{Exec}
use context_os_mcp.Operation.{
  Origin, OpKind, create, modify, move, delete, restore, WriteMutation, RestoreMutation,
  DeleteMutation, DeleteOutcome, AppendMutation, AppendOutcome, WriteOutcome,
  CreateDirectoryMutation, CreateDirectoryOutcome, MoveMutation, MoveOutcome, write_from_restore,
}
use context_os_mcp.Vault.Confine.{VaultPath}
use context_os_mcp.Pipeline.{
  AppliesMutations, RoutedWritePipeline, PipelineResult, routed_write, routed_restore,
  routed_delete, routed_append, routed_create_directory, routed_move,
}

pub data Request : Type 0 where
  write_request : WriteMutation → Request
  restore_request : RestoreMutation → Request
  delete_request : DeleteMutation → Request
  append_request : AppendMutation → Request
  create_directory_request : CreateDirectoryMutation → Request
  move_request : MoveMutation → Request

pub data Outcome : Type 0 where
  written : WriteOutcome → Outcome
  deleted : DeleteOutcome → Outcome
  appended : AppendOutcome → Outcome
  directory_created : CreateDirectoryOutcome → Outcome
  moved : MoveOutcome → Outcome

abbrev pub map_ok : {W E A B : Type 0} → (A → B) → Result E A × W → Result E B × W
map_ok f (ok a, w) = (ok (f a), w)
map_ok f (err e, w) = (err e, w)

abbrev pub with_value : {T A B : Type 0} → (A → B) → PipelineResult T A → PipelineResult T B
with_value f r = record { value = f r.value; event = r.event; warnings = r.warnings }

module _ {W E : Type 0} where
  -- The adapter alone: what the primary persistence does for a request.
  unfoldable pub persist : AppliesMutations W E → Request → Exec W E Outcome
  persist a (write_request m) w = map_ok written (a.write m w)
  persist a (restore_request m) w = map_ok written (a.write (write_from_restore m) w)
  persist a (delete_request m) w = map_ok deleted (a.delete m w)
  persist a (append_request m) w = map_ok appended (a.append m w)
  persist a (create_directory_request m) w = map_ok directory_created (a.create_directory m w)
  persist a (move_request m) w = map_ok moved (a.move_path m w)

module _ {W E T : Type 0} where
  -- The routed pipeline on a request.
  unfoldable pub perform : RoutedWritePipeline W E T → Request → Exec W E (PipelineResult T Outcome)
  perform r (write_request m) w = map_ok (with_value written) (routed_write r m w)
  perform r (restore_request m) w = map_ok (with_value written) (routed_restore r m w)
  perform r (delete_request m) w = map_ok (with_value deleted) (routed_delete r m w)
  perform r (append_request m) w = map_ok (with_value appended) (routed_append r m w)
  perform r (create_directory_request m) w =
      map_ok (with_value directory_created) (routed_create_directory r m w)
  perform r (move_request m) w = map_ok (with_value moved) (routed_move r m w)

-- What the event of a persisted request must say.
abbrev pub changes : Outcome → Bool
changes (directory_created o) = o.created
changes _ = true

abbrev pub created_or_modified : Bool → OpKind
created_or_modified created = if created then create else modify

abbrev pub kind_of : Request → Outcome → OpKind
kind_of (restore_request _) _ = restore
kind_of _ (written o) = created_or_modified o.created
kind_of _ (deleted o) = delete
kind_of _ (appended o) = created_or_modified o.created
kind_of _ (directory_created o) = create
kind_of _ (moved o) = move

abbrev pub paths_of : Outcome → List VaultPath
paths_of (written o) = o.path ∷ []
paths_of (deleted o) = o.path ∷ []
paths_of (appended o) = o.path ∷ []
paths_of (directory_created o) = o.path ∷ []
paths_of (moved o) = o.source ∷ o.destination ∷ []

abbrev pub origin_of : Request → Origin
origin_of (write_request m) = m.origin
origin_of (restore_request m) = m.origin
origin_of (delete_request m) = m.origin
origin_of (append_request m) = m.origin
origin_of (create_directory_request m) = m.origin
origin_of (move_request m) = m.origin
