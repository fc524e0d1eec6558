-- ===== src/Routing/Deliveries.antt =====
-- The deliveries that one event causes, and the warnings that come back.
use context_os_mcp.Prelude.{
  List, Result, [], ap, append-nil, append_assoc, err, ok, refl, sym, ◌++◌, ◌∙◌, ◌∷◌, ◌≡◌,
}
use context_os_mcp.Operation.{Origin, tool, internal, OperationEvent, OperationWarning}
use context_os_mcp.Routing.{
  route_along, OperationService, index, operation_log, git, search, OperationRouter, Gathered,
  observe, note, deliver_internal, route, route_from,
}

-- What each service answers to an event.
pub record Answers (T : Type 0) : Type 0 where
  pub reconciled : OperationEvent T → Result OperationWarning (List (OperationEvent T))
  pub logged : OperationEvent T → Result OperationWarning (List (OperationEvent T))
  pub staged : OperationEvent T → Result OperationWarning (Unit {0})
  pub updated : OperationEvent T → Result OperationWarning (Unit {0})

abbrev pub Delivery : Type 0 → Type 0
Delivery T = OperationService × OperationEvent T

abbrev pub failure : {A : Type 0} → Result OperationWarning A → List OperationWarning
failure (ok _) = []
failure (err warning) = warning ∷ []

abbrev pub events_of : {A : Type 0} → Result OperationWarning (List A) → List A
events_of (ok events) = events
events_of (err _) = []

note-failure :
    (warnings : List OperationWarning) (r : Result OperationWarning (Unit {0}))
    → note warnings r ≡ warnings ++ failure r
note-failure warnings (ok _) = sym (append-nil warnings)
note-failure warnings (err _) = refl

module _ {T : Type 0} where
  observe-warnings :
      (g : Gathered T) (r : Result OperationWarning (List (OperationEvent T)))
      → (observe g r).warnings ≡ g.warnings ++ failure r
  observe-warnings g (ok _) = sym (append-nil g.warnings)
  observe-warnings g (err _) = refl

  observe-internal_events :
      (g : Gathered T) (r : Result OperationWarning (List (OperationEvent T)))
      → (observe g r).internal_events ≡ g.internal_events ++ events_of r
  observe-internal_events g (ok _) = refl
  observe-internal_events g (err _) = sym (append-nil g.internal_events)

module _ {T : Type 0} (a : Answers T) where
  -- Services that answer so and write down what they are told of.
  abbrev pub recording : OperationRouter (List (Delivery T)) T
  recording = record {
    reconcile = λ e seen. (a.reconciled e, seen ++ (index, e) ∷ []);
    append = λ e seen. (a.logged e, seen ++ (operation_log, e) ∷ []);
    stage = λ e seen. (a.staged e, seen ++ (git, e) ∷ []);
    update = λ e seen. (a.updated e, seen ++ (search, e) ∷ []);
  }

  -- What a delivery is answered with, if it fails.
  abbrev pub answer : Delivery T → List OperationWarning
  answer (index, e) = failure (a.reconciled e)
  answer (operation_log, e) = failure (a.logged e)
  answer (git, e) = failure (a.staged e)
  answer (search, e) = failure (a.updated e)

  abbrev pub answers : List (Delivery T) → List OperationWarning
  answers [] = []
  answers (d ∷ ds) = answer d ++ answers ds

  -- Versions and search, for each event in turn.
  abbrev pub downstream : List (OperationEvent T) → List (Delivery T)
  downstream [] = []
  downstream (e ∷ es) = (git, e) ∷ (search, e) ∷ downstream es

  -- Who learns of an event: for a tool's operation all four services, and then versions and search
  -- of what the index and the log wrote themselves; for an internal one versions and search only.
  abbrev pub deliveries : Origin → OperationEvent T → List (Delivery T)
  deliveries (tool _) e =
      (index, e)
      ∷ (operation_log, e)
      ∷ (git, e)
      ∷ (search, e)
      ∷ downstream (events_of (a.reconciled e) ++ events_of (a.logged e))
  deliveries (internal _) e = (git, e) ∷ (search, e) ∷ []

  deliver_internal-downstream :
      (events : List (OperationEvent T)) (warnings : List OperationWarning)
      (seen : List (Delivery T))
      → deliver_internal recording events warnings seen
        ≡ (warnings ++ answers (downstream events), seen ++ downstream events)
  unfolding deliver_internal
  deliver_internal-downstream [] warnings seen =
      λ i. (sym (append-nil warnings) i, sym (append-nil seen) i)
  deliver_internal-downstream (e ∷ events) warnings seen =
      deliver_internal-downstream events (note (note warnings (a.staged e)) (a.updated e))
        ((seen ++ (git, e) ∷ []) ++ (search, e) ∷ [])
      ∙ (λ i. (same_warnings i, same_log i))
    where
      same_warnings :
          note (note warnings (a.staged e)) (a.updated e) ++ answers (downstream events)
          ≡ warnings ++ answers (downstream (e ∷ events))
      same_warnings = simp (note-failure, append_assoc)

      same_log :
          ((seen ++ (git, e) ∷ []) ++ (search, e) ∷ []) ++ downstream events
          ≡ seen ++ downstream (e ∷ events)
      same_log = simp append_assoc

  route_along-deliveries :
      (o : Origin) (event : OperationEvent T) (seen : List (Delivery T))
      → route_along (route_from o) recording event seen
        ≡ (answers (deliveries o event), seen ++ deliveries o event)
  unfolding route_along route_from deliver_internal
  route_along-deliveries (internal _) event seen = λ i. (same_warnings i, same_log i)
    where
      same_warnings :
          note (note [] (a.staged event)) (a.updated event)
          ≡ answers (deliveries (internal []) event)
      same_warnings = simp (note-failure, append-nil)

      same_log :
          (seen ++ (git, event) ∷ []) ++ (search, event) ∷ []
          ≡ seen ++ (git, event) ∷ (search, event) ∷ []
      same_log = simp append_assoc
  route_along-deliveries (tool _) event seen =
      deliver_internal-downstream _ _ _ ∙ (λ i. (same_warnings i, same_log i))
    where
      start : Gathered T
      start = record { warnings = []; internal_events = [] }

      logged : Gathered T
      logged = observe (observe start (a.reconciled event)) (a.logged event)

      internals :
          logged.internal_events ≡ events_of (a.reconciled event) ++ events_of (a.logged event)
      internals =
          observe-internal_events _ (a.logged event)
          ∙ ap (λ es. es ++ events_of (a.logged event))
              (observe-internal_events start (a.reconciled event))

      warned : logged.warnings ≡ failure (a.reconciled event) ++ failure (a.logged event)
      warned =
          observe-warnings _ (a.logged event)
          ∙ ap (λ ws. ws ++ failure (a.logged event)) (observe-warnings start (a.reconciled event))

      same_warnings :
          note (note logged.warnings (a.staged event)) (a.updated event)
            ++ answers (downstream logged.internal_events)
          ≡ answers (deliveries (tool []) event)
      same_warnings = rw internals (simp note-failure (rw warned (simp append_assoc)))

      same_log :
          ((((seen ++ (index, event) ∷ []) ++ (operation_log, event) ∷ []) ++ (git, event) ∷ [])
              ++ (search, event) ∷ [])
            ++ downstream logged.internal_events
          ≡ seen ++ deliveries (tool []) event
      same_log = rw internals (simp append_assoc)

  -- Over services that answer in any fixed way and record what they are told, routing makes
  -- exactly these deliveries, in this order, and returns the warnings of those that failed, in
  -- the same order: what the index and the log write themselves never reaches the index or the
  -- log again.
  pub route-deliveries :
      (event : OperationEvent T) (seen : List (Delivery T))
      → route recording event seen
        ≡ (answers (deliveries event.origin event), seen ++ deliveries event.origin event)
  unfolding route
  route-deliveries event seen = route_along-deliveries event.origin event seen
