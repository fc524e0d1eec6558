-- ===== src/Oplog/Retry.antt =====
-- Retries of buffered records: what a success and a failure mean.
use context_os_mcp.Prelude.{
  Bool, List, Option, Result, [], ap, append-nil, err, false, ok, ok-injective, refl, sym, ◌++◌,
  ◌∙◌, ◌∷◌, ◌≡◌,
}
use context_os_mcp.Exec.{Exec}
use context_os_mcp.Operation.{OperationEvent, AppendMutation, AppendOutcome}
use context_os_mcp.Pipeline.{PipelineResult}
use context_os_mcp.Oplog.{append_error, Buffer, Appender, optional, flushed, flush_pending, flush}

module _ {W E T : Type 0} (append : Appender W E T) where
  -- One append after another, with the events of all; the first error ends it.
  abbrev pub continued :
      {A : Type 0}
      → Result E (PipelineResult T A)
      → (Option (OperationEvent T) → Result E (List (OperationEvent T)) × W)
      → W
      → Result E (List (OperationEvent T)) × W
  continued (ok result) next w = next result.event
  continued (err e) next w = (err e, w)

  unfoldable pub append_all :
      List AppendMutation → List (OperationEvent T) → Exec W E (List (OperationEvent T))
  append_all [] events w = (ok events, w)
  append_all (request ∷ rest) events w =
      let (answer, w') = append request w in
      continued answer (λ event. append_all rest (events ++ optional event) w') w'

  module _ (poisoned : Bool) where
    flush_pending-append_all :
        (done rest : List AppendMutation) (events all_events : List (OperationEvent T)) (w w' : W)
        → append_all done events w ≡ (ok all_events, w')
        → flush_pending append events (done ++ rest) poisoned w
          ≡ flush_pending append all_events rest poisoned w'
    unfolding flush_pending append_all
    flush_pending-append_all [] rest events all_events w w' h = λ i.
        flush_pending append
          (ok-injective (ap (λ (p : Result E (List (OperationEvent T)) × W). p.0) h) i) rest
          poisoned (h i).1
    flush_pending-append_all (request ∷ done) rest events all_events w w' h =
        go (append request w) h (λ event w₁.
          flush_pending-append_all done rest (events ++ optional event) all_events w₁ w')
      where
        go :
            (x : Result E (PipelineResult T AppendOutcome) × W)
            → continued x.0 (λ event. append_all done (events ++ optional event) x.1) x.1
              ≡ (ok all_events, w')
            → ((event : Option (OperationEvent T)) (w₁ : W)
                → append_all done (events ++ optional event) w₁ ≡ (ok all_events, w')
                → flush_pending append (events ++ optional event) (done ++ rest) poisoned w₁
                  ≡ flush_pending append all_events rest poisoned w')
            → flushed request
                (done ++ rest)
                poisoned
                x.0
                (λ event.
                  flush_pending append (events ++ optional event) (done ++ rest) poisoned x.1)
                x.1
              ≡ flush_pending append all_events rest poisoned w'
        go (ok result, w₁) e ih = ih result.event w₁ e
        go (err x, w₁) e ih =
            absurd (cc (ap (λ (p : Result E (List (OperationEvent T)) × W). p.0) e))

  abbrev open_buffer : List AppendMutation → Buffer
  open_buffer pending = record { pending = pending; poisoned = false }

  -- When every buffered append succeeds, a flush empties the buffer and returns all their events.
  flush_succeeds :
      (pending : List AppendMutation) (events : List (OperationEvent T)) (w w' : W)
      → append_all pending [] w ≡ (ok events, w')
      → flush append (open_buffer pending) w ≡ (ok events, open_buffer [], w')
  unfolding flush
  flush_succeeds pending events w w' h =
      ap (λ l. flush_pending append [] l false w) (sym (append-nil pending))
      ∙ flush_pending-append_all false pending [] [] events w w' h
      ∙ (unfold flush_pending in refl)

  -- When an append fails behind others that succeeded, the flush returns the failure alone: the
  -- failing record and those behind it stay buffered, and the events of the records that did get
  -- into the log file are not among what is returned.
  pub flush_fails :
      (done rest : List AppendMutation) (request : AppendMutation)
      (events : List (OperationEvent T)) (e : E) (w w₁ w₂ : W)
      → append_all done [] w ≡ (ok events, w₁)
      → append request w₁ ≡ (err e, w₂)
      → flush append (open_buffer (done ++ request ∷ rest)) w
        ≡ (err (append_error e), open_buffer (request ∷ rest), w₂)
  unfolding flush
  flush_fails done rest request events e w w₁ w₂ h k =
      flush_pending-append_all false done (request ∷ rest) [] events w w₁ h
      ∙ (unfold flush_pending in rw k)
