-- ===== src/Pipeline/Announce.antt =====
-- What the pipeline tells the services of a request that is persisted.
use context_os_mcp.Prelude.{
  subst₂, Bool, Bool-cases, Result, [], ap, err, false, inl, inr, none, ok, ok-injective, refl,
  some, subst, sym, true, ◌≡◌,
}
use context_os_mcp.Exec.{and_then}
use context_os_mcp.Operation.{
  CreateDirectoryOutcome, CreateDirectoryMutation, write_from_restore, OperationEvent,
}
use context_os_mcp.Pipeline.{
  move_event, append_event, create_directory_event, delete_event, directory_event, restore_event,
  write_event, stamped, RoutedWritePipeline, PipelineResult, write, restore_content, delete_path,
  append, create_directory, move_path, route_result, routed_write, routed_restore, routed_delete,
  routed_append, routed_create_directory, routed_move,
}
use context_os_mcp.Pipeline.Request.{
  moved, appended, deleted, directory_created, with_value, written, map_ok, Request, write_request,
  restore_request, delete_request, append_request, create_directory_request, move_request, Outcome,
  persist, perform, changes, kind_of, paths_of, origin_of,
}

module _ {W E T : Type 0} (r : RoutedWritePipeline W E T) where
  -- An event for a persisted request was made, and the services were told of it once, after the
  -- persistence; what they warned of is in the result, and their world is the final one.
  pub record Announced (request : Request) (value : Outcome) (w : W)
      (result : PipelineResult T Outcome) (final : W) : Type 0 where
    pub event : OperationEvent T
    pub made : result.event ≡ some event
    pub kind : event.kind ≡ kind_of request value
    pub paths : event.paths ≡ paths_of value
    pub origin : event.origin ≡ origin_of request
    pub time : event.at ≡ (r.pipeline.now w).0
    pub told : r.route event (r.pipeline.now w).1 ≡ (result.warnings, final)

  -- Nothing happened beyond the persistence.
  pub record Quiet (w : W) (result : PipelineResult T Outcome) (final : W) : Type 0 where
    pub no_event : result.event ≡ none
    pub no_warnings : result.warnings ≡ []
    pub same_world : final ≡ w

  abbrev Follows : Bool → Request → Outcome → W → PipelineResult T Outcome → W → Type 0
  Follows true request value w result final = Announced request value w result final
  Follows false request value w result final = Quiet w result final

  -- A successful run, with the value of the persistence and what follows from it.
  pub record Succeeds (request : Request) (value : Outcome) (w : W)
      (run : Result E (PipelineResult T Outcome) × W) : Type 0 where
    pub result : PipelineResult T Outcome
    pub final : W
    pub returns : run ≡ (ok result, final)
    pub same_value : result.value ≡ value
    pub follows : Follows (changes value) request value w result final

  -- The run of one operation, from its adapter's answer on.
  abbrev run_from :
      {A : Type 0}
      → (A → Outcome)
      → (A → T → OperationEvent T)
      → Result E A × W
      → Result E (PipelineResult T Outcome) × W
  run_from v make x = map_ok (with_value v) (
      and_then (and_then x (λ a. stamped r.pipeline.now a (λ at. some (make a at))))
        (route_result r))

  announced :
      {A : Type 0} (request : Request) (v : A → Outcome) (make : A → T → OperationEvent T) (a : A)
      (w : W)
      → ((at : T) → (make a at).kind ≡ kind_of request (v a))
      → ((at : T) → (make a at).paths ≡ paths_of (v a))
      → ((at : T) → (make a at).origin ≡ origin_of request)
      → ((at : T) → (make a at).at ≡ at)
      → changes (v a) ≡ true
      → Succeeds request (v a) w (run_from v make (ok a, w))
  unfolding route_result
  announced request v make a w kind paths origin time yes_changes =
      let (at, w₁) = r.pipeline.now w in
      let (warnings, w₂) = r.route (make a at) w₁ in
      record {
        result = record { value = v a; event = some (make a at); warnings = warnings };
        final = w₂;
        returns = refl;
        same_value = refl;
        follows = rw yes_changes (record {
          event = make a at;
          made = refl;
          kind = kind at;
          paths = paths at;
          origin = origin at;
          time = time at;
          told = refl;
        });
      }

  -- From a successful answer of the adapter to the run.
  from_answer :
      {A : Type 0} (request : Request) (v : A → Outcome)
      (run : Result E A × W → Result E (PipelineResult T Outcome) × W)
      → ((a : A) (w : W) → Succeeds request (v a) w (run (ok a, w)))
      → (x : Result E A × W) (value : Outcome) (w : W) → map_ok v x ≡ (ok value, w)
      → Succeeds request value w (run x)
  from_answer request v run each (ok a, u) value w h =
      subst₂ (λ val v'. Succeeds request val v' (run (ok a, u)))
        (ok-injective (ap (λ (p : Result E Outcome × W). p.0) h))
        (ap (λ (p : Result E Outcome × W). p.1) h) (each a u)
  from_answer request v run each (err e, u) value w h =
      absurd (cc (ap (λ (p : Result E Outcome × W). p.0) h))

  abbrev directory_run :
      CreateDirectoryMutation
      → CreateDirectoryOutcome
      → W
      → Bool
      → Result E (PipelineResult T Outcome) × W
  directory_run m a w b =
      map_ok (with_value directory_created)
        (and_then (directory_event b r.pipeline.now m a w) (route_result r))

  directory_announced :
      (m : CreateDirectoryMutation) (a : CreateDirectoryOutcome) (w : W)
      → Succeeds
          (create_directory_request m)
          (directory_created a)
          w
          (directory_run m a w a.created)
  unfolding route_result
  directory_announced m a w = elim (Bool-cases a.created) [
    | inl new ↦
        subst
          (λ b.
            Succeeds (create_directory_request m) (directory_created a) w (directory_run m a w b))
          (sym new)
          (announced (create_directory_request m) directory_created (create_directory_event m) a w
            (λ _. refl) (λ _. refl) (λ _. refl) (λ _. refl) new)
    | inr old ↦
        let quiet : PipelineResult T Outcome = record {
          value = directory_created a;
          event = none;
          warnings = [];
        } in
        subst
          (λ b.
            Succeeds (create_directory_request m) (directory_created a) w (directory_run m a w b))
          (sym old)
          (record {
            result = quiet;
            final = w;
            returns = refl;
            same_value = refl;
            follows =
                subst (λ b. Follows b (create_directory_request m) (directory_created a) w quiet w)
                  (sym old) (record { no_event = refl; no_warnings = refl; same_world = refl });
          })
  ]

  -- A request that the adapter persists succeeds, whatever the services answer, with the
  -- adapter's outcome for its value. Unless it found a directory already there, one event of the
  -- right kind, with the paths of the outcome and the origin of the request, is made at the
  -- clock's time after the persistence, the services are told of it, and their warnings are
  -- returned; for a directory already there, nothing more happens.
  pub success_announces :
      (request : Request) (w w' : W) (value : Outcome)
      → persist r.pipeline.adapter request w ≡ (ok value, w')
      → Succeeds request value w' (perform r request w)
  unfolding persist perform routed_write routed_restore routed_delete routed_append
      routed_create_directory routed_move write restore_content delete_path append create_directory
      move_path
  success_announces (write_request m) w w' value h =
      from_answer (write_request m) written (run_from written (write_event m))
        (λ a u.
          announced (write_request m) written (write_event m) a u (λ _. refl) (λ _. refl)
            (λ _. refl) (λ _. refl) refl)
        (r.pipeline.adapter.write m w) value w' h
  success_announces (restore_request m) w w' value h =
      from_answer (restore_request m) written (run_from written (restore_event m))
        (λ a u.
          announced (restore_request m) written (restore_event m) a u (λ _. refl) (λ _. refl)
            (λ _. refl) (λ _. refl) refl)
        (r.pipeline.adapter.write (write_from_restore m) w) value w' h
  success_announces (delete_request m) w w' value h =
      from_answer (delete_request m) deleted (run_from deleted (delete_event m))
        (λ a u.
          announced (delete_request m) deleted (delete_event m) a u (λ _. refl) (λ _. refl)
            (λ _. refl) (λ _. refl) refl)
        (r.pipeline.adapter.delete m w) value w' h
  success_announces (append_request m) w w' value h =
      from_answer (append_request m) appended (run_from appended (append_event m))
        (λ a u.
          announced (append_request m) appended (append_event m) a u (λ _. refl) (λ _. refl)
            (λ _. refl) (λ _. refl) refl)
        (r.pipeline.adapter.append m w) value w' h
  success_announces (move_request m) w w' value h =
      from_answer (move_request m) moved (run_from moved (move_event m))
        (λ a u.
          announced (move_request m) moved (move_event m) a u (λ _. refl) (λ _. refl) (λ _. refl)
            (λ _. refl) refl)
        (r.pipeline.adapter.move_path m w) value w' h
  success_announces (create_directory_request m) w w' value h =
      from_answer (create_directory_request m) directory_created
        (λ x. map_ok (with_value directory_created) (
          and_then (and_then x (λ a. directory_event a.created r.pipeline.now m a))
            (route_result r)))
        (directory_announced m) (r.pipeline.adapter.create_directory m w) value w' h
