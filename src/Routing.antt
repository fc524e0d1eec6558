-- ===== src/Routing.antt =====
-- `OperationRouter` (crates/contextos-core/src/routing.rs): which services learn of a completed
-- mutation, and in what order.
pub mod Deliveries
use context_os_mcp.Prelude.{Bool, List, Result, [], err, false, ok, true, ◌++◌, ◌∷◌}
use context_os_mcp.Exec.{Act}
use context_os_mcp.Operation.{Origin, tool, internal, OperationEvent, OperationWarning}

pub data OperationService : Type 0 where
  index operation_log git search : OperationService

pub data OperationRouteKind : Type 0 where
  tool_route internal_route : OperationRouteKind

pub record OperationRoute : Type 0 where
  pub kind : OperationRouteKind

-- `OperationRoute::from(&Origin)`
unfoldable pub route_from : Origin → OperationRoute
route_from (tool _) = record { kind = tool_route }
route_from (internal _) = record { kind = internal_route }

abbrev pub includes_kind : OperationRouteKind → OperationService → Bool
includes_kind internal_route index = false
includes_kind internal_route operation_log = false
includes_kind _ _ = true

-- `OperationRoute::includes`
unfoldable pub includes : OperationRoute → OperationService → Bool
includes route service = includes_kind route.kind service

-- The four ports, over a world `W`.
pub record OperationRouter (W T : Type 0) : Type 0 where
  -- `MaintainsIndexes::reconcile`
  pub reconcile : OperationEvent T → Act W (Result OperationWarning (List (OperationEvent T)))
  -- `LogsOperations::append`
  pub append : OperationEvent T → Act W (Result OperationWarning (List (OperationEvent T)))
  -- `VersionsVault::stage`
  pub stage : OperationEvent T → Act W (Result OperationWarning (Unit {0}))
  -- `UpdatesSearch::update`
  pub update : OperationEvent T → Act W (Result OperationWarning (Unit {0}))

-- The two vectors that `route` fills.
pub record Gathered (T : Type 0) : Type 0 where
  pub warnings : List OperationWarning
  pub internal_events : List (OperationEvent T)

module _ {T : Type 0} where
  abbrev pub observe : Gathered T → Result OperationWarning (List (OperationEvent T)) → Gathered T
  observe g (ok events) = record g { internal_events = g.internal_events ++ events }
  observe g (err warning) = record g { warnings = g.warnings ++ warning ∷ [] }

abbrev pub note : List OperationWarning → Result OperationWarning (Unit {0}) → List OperationWarning
note warnings (ok _) = warnings
note warnings (err warning) = warnings ++ warning ∷ []

module _ {W T : Type 0} where
  abbrev pub ask_events :
      Bool
      → (OperationEvent T → Act W (Result OperationWarning (List (OperationEvent T))))
      → OperationEvent T
      → Gathered T
      → Act W (Gathered T)
  ask_events true service event g w = let (answer, w') = service event w in (observe g answer, w')
  ask_events false service event g w = (g, w)

  abbrev pub ask :
      Bool
      → (OperationEvent T → Act W (Result OperationWarning (Unit {0})))
      → OperationEvent T
      → List OperationWarning
      → Act W (List OperationWarning)
  ask true service event warnings w =
      let (answer, w') = service event w in (note warnings answer, w')
  ask false service event warnings w = (warnings, w)

  -- The last loop: versions and search, for each internal event.
  unfoldable pub deliver_internal :
      OperationRouter W T
      → List (OperationEvent T)
      → List OperationWarning
      → Act W (List OperationWarning)
  deliver_internal r [] warnings w = (warnings, w)
  deliver_internal r (event ∷ events) warnings w =
      let (staged, w₁) = ask true r.stage event warnings w in
      let (updated, w₂) = ask true r.update event staged w₁ in deliver_internal r events updated w₂

  -- The body of `OperationRouter::route`, at the route of the event's origin.
  unfoldable pub route_along :
      OperationRoute → OperationRouter W T → OperationEvent T → Act W (List OperationWarning)
  unfolding includes
  route_along along r event w =
      let allowed = includes along in
      let (indexed, w₁) =
        ask_events (allowed index) r.reconcile event
          (record { warnings = []; internal_events = [] }) w in
      let (logged, w₂) = ask_events (allowed operation_log) r.append event indexed w₁ in
      let (staged, w₃) = ask (allowed git) r.stage event logged.warnings w₂ in
      let (updated, w₄) = ask (allowed search) r.update event staged w₃ in
      deliver_internal r logged.internal_events updated w₄

  -- `OperationRouter::route`
  unfoldable pub route : OperationRouter W T → OperationEvent T → Act W (List OperationWarning)
  unfolding route_from
  route r event = route_along (route_from event.origin) r event
