-- ===== src/Pipeline.antt =====
-- `WritePipeline` and `RoutedWritePipeline` (crates/contextos-core/src/pipeline.rs): persist
-- first, then make the event, then tell the services.
pub mod Request
pub mod Announce
use context_os_mcp.Prelude.{
  Bool, List, Option, Text, [], bytes, codes, decimal, false, if◌then◌else◌, none, ok, some, true,
  ℕ, ◌++◌, ◌∷◌,
}
use context_os_mcp.Exec.{Exec, Act, and_then}
use context_os_mcp.Operation.{
  create, modify, move, delete, restore, OperationEvent, OperationWarning, WriteMutation,
  RestoreMutation, DeleteMutation, DeleteOutcome, AppendMutation, AppendOutcome, WriteOutcome,
  CreateDirectoryMutation, CreateDirectoryOutcome, MoveMutation, MoveOutcome, write_from_restore,
  forward_slash_display,
}
use context_os_mcp.Vault.Confine.{VaultPath}

-- The persistence port, over a world `W`, with the adapter's error `E`.
pub record AppliesMutations (W E : Type 0) : Type 0 where
  pub write : WriteMutation → Exec W E WriteOutcome
  pub create_directory : CreateDirectoryMutation → Exec W E CreateDirectoryOutcome
  pub move_path : MoveMutation → Exec W E MoveOutcome
  pub delete : DeleteMutation → Exec W E DeleteOutcome
  pub append : AppendMutation → Exec W E AppendOutcome

pub record WritePipeline (W E T : Type 0) : Type 0 where
  pub adapter : AppliesMutations W E
  pub now : Act W T

pub record RoutedWritePipeline (W E T : Type 0) : Type 0 where
  pub pipeline : WritePipeline W E T
  -- `RoutesOperations::route`
  pub route : OperationEvent T → Act W (List OperationWarning)

pub record PipelineResult (T A : Type 0) : Type 0 where
  pub value : A
  pub event : Option (OperationEvent T)
  pub warnings : List OperationWarning

abbrev pub display : VaultPath → Text
display p = forward_slash_display p.relative

abbrev pub sized : Text → VaultPath → ℕ → Text
sized action path count =
    action ++ (codes " " ++ (display path ++ (codes " (" ++ (decimal count ++ codes " bytes)"))))

-- The events of the six methods.
module _ {T : Type 0} where
  abbrev pub write_event : WriteMutation → WriteOutcome → T → OperationEvent T
  write_event request value at = record {
    kind = if value.created then create else modify;
    paths = value.path ∷ [];
    origin = request.origin;
    summary =
        sized (if value.created then codes "Created" else codes "Overwrote") value.path
          value.bytes_written;
    at = at;
  }

  abbrev pub restore_event : RestoreMutation → WriteOutcome → T → OperationEvent T
  restore_event request value at = record {
    kind = restore;
    paths = value.path ∷ [];
    origin = request.origin;
    summary = sized (codes "Restored") value.path value.bytes_written;
    at = at;
  }

  abbrev pub delete_event : DeleteMutation → DeleteOutcome → T → OperationEvent T
  delete_event request value at = record {
    kind = delete;
    paths = value.path ∷ [];
    origin = request.origin;
    summary = codes "Deleted " ++ display value.path;
    at = at;
  }

  abbrev pub append_event : AppendMutation → AppendOutcome → T → OperationEvent T
  append_event request value at = record {
    kind = if value.created then create else modify;
    paths = value.path ∷ [];
    origin = request.origin;
    summary =
        codes "Appended "
        ++ (decimal value.bytes_appended ++ (codes " bytes to " ++ display value.path));
    at = at;
  }

  abbrev pub create_directory_event :
      CreateDirectoryMutation → CreateDirectoryOutcome → T → OperationEvent T
  create_directory_event request value at = record {
    kind = create;
    paths = value.path ∷ [];
    origin = request.origin;
    summary = codes "Created directory " ++ display value.path;
    at = at;
  }

  abbrev pub move_event : MoveMutation → MoveOutcome → T → OperationEvent T
  move_event request value at = record {
    kind = move;
    paths = value.source ∷ value.destination ∷ [];
    origin = request.origin;
    summary =
        codes "Moved " ++ (display value.source ++ (codes " to " ++ display value.destination));
    at = at;
  }

module _ {W E T : Type 0} where
  -- The clock is read when the event is made.
  abbrev pub stamped :
      {A : Type 0} → Act W T → A → (T → Option (OperationEvent T)) → Exec W E (PipelineResult T A)
  stamped now value event w =
      let (at, w') = now w in (ok (record { value = value; event = event at; warnings = [] }), w')

  -- `WritePipeline::write`
  unfoldable pub write :
      WritePipeline W E T → WriteMutation → Exec W E (PipelineResult T WriteOutcome)
  write p request w =
      and_then (p.adapter.write request w)
        λ value. stamped p.now value λ at. some (write_event request value at)

  -- `WritePipeline::restore`
  unfoldable pub restore_content :
      WritePipeline W E T → RestoreMutation → Exec W E (PipelineResult T WriteOutcome)
  restore_content p request w =
      and_then (p.adapter.write (write_from_restore request) w)
        λ value. stamped p.now value λ at. some (restore_event request value at)

  -- `WritePipeline::delete`
  unfoldable pub delete_path :
      WritePipeline W E T → DeleteMutation → Exec W E (PipelineResult T DeleteOutcome)
  delete_path p request w =
      and_then (p.adapter.delete request w)
        λ value. stamped p.now value λ at. some (delete_event request value at)

  -- `WritePipeline::append`
  unfoldable pub append :
      WritePipeline W E T → AppendMutation → Exec W E (PipelineResult T AppendOutcome)
  append p request w =
      and_then (p.adapter.append request w)
        λ value. stamped p.now value λ at. some (append_event request value at)

  -- Only a directory that is new makes an event.
  abbrev pub directory_event :
      Bool
      → Act W T
      → CreateDirectoryMutation
      → CreateDirectoryOutcome
      → Exec W E (PipelineResult T CreateDirectoryOutcome)
  directory_event true now request value w =
      stamped now value (λ at. some (create_directory_event request value at)) w
  directory_event false now request value w =
      (ok (record { value = value; event = none; warnings = [] }), w)

  -- `WritePipeline::create_directory`
  unfoldable pub create_directory :
      WritePipeline W E T
      → CreateDirectoryMutation
      → Exec W E (PipelineResult T CreateDirectoryOutcome)
  create_directory p request w =
      and_then (p.adapter.create_directory request w)
        λ value. directory_event value.created p.now request value

  -- `WritePipeline::move_path`
  unfoldable pub move_path :
      WritePipeline W E T → MoveMutation → Exec W E (PipelineResult T MoveOutcome)
  move_path p request w =
      and_then (p.adapter.move_path request w)
        λ value. stamped p.now value λ at. some (move_event request value at)

  abbrev pub tell :
      {A : Type 0}
      → RoutedWritePipeline W E T
      → PipelineResult T A
      → Option (OperationEvent T)
      → Exec W E (PipelineResult T A)
  tell r result none w = (ok result, w)
  tell r result (some event) w =
      let (warnings, w') = r.route event w in
      (ok (record result { warnings = result.warnings ++ warnings }), w')

  -- `RoutedWritePipeline::route_result`
  unfoldable pub route_result :
      {A : Type 0} → RoutedWritePipeline W E T → PipelineResult T A → Exec W E (PipelineResult T A)
  route_result r result = tell r result result.event

  -- The methods of `RoutedWritePipeline`.
  unfoldable pub routed_write :
      RoutedWritePipeline W E T → WriteMutation → Exec W E (PipelineResult T WriteOutcome)
  routed_write r request w = and_then (write r.pipeline request w) (route_result r)

  unfoldable pub routed_restore :
      RoutedWritePipeline W E T → RestoreMutation → Exec W E (PipelineResult T WriteOutcome)
  routed_restore r request w = and_then (restore_content r.pipeline request w) (route_result r)

  unfoldable pub routed_delete :
      RoutedWritePipeline W E T → DeleteMutation → Exec W E (PipelineResult T DeleteOutcome)
  routed_delete r request w = and_then (delete_path r.pipeline request w) (route_result r)

  unfoldable pub routed_append :
      RoutedWritePipeline W E T → AppendMutation → Exec W E (PipelineResult T AppendOutcome)
  routed_append r request w = and_then (append r.pipeline request w) (route_result r)

  unfoldable pub routed_create_directory :
      RoutedWritePipeline W E T
      → CreateDirectoryMutation
      → Exec W E (PipelineResult T CreateDirectoryOutcome)
  routed_create_directory r request w =
      and_then (create_directory r.pipeline request w) (route_result r)

  unfoldable pub routed_move :
      RoutedWritePipeline W E T → MoveMutation → Exec W E (PipelineResult T MoveOutcome)
  routed_move r request w = and_then (move_path r.pipeline request w) (route_result r)
