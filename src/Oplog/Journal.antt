-- ===== src/Oplog/Journal.antt =====
-- Where the records of the operation log are: in the log file or in the retry buffer.
use context_os_mcp.Vault.Confine.{Fault, VaultPath, try_from}
use context_os_mcp.Host.{Host}
use context_os_mcp.Prelude.{
  inl, inr, map, ◌⊎◌, ◌==◌, not, any, trim, is_empty, true, false, codes, Text, if◌then◌else◌, sym,
  append-nil, arith, ◌≤◌, subst, length, Bool, List, Option, Result, [], ap, append_assoc, err,
  nat_eq, ok, refl, ◌++◌, ◌∙◌, ◌∷◌, ◌≡◌,
}
use context_os_mcp.Operation.{tool, internal, Origin, OperationEvent, AppendMutation, AppendOutcome}
use context_os_mcp.Pipeline.{PipelineResult}
use context_os_mcp.Oplog.{
  append_error, buffer_unavailable, by_origin, at_path, log_files, wrong_root, empty_manual_entry,
  enqueue, ManualLogInput, append_record, append_manual, append_event, locked, OperationLogError,
  OperationLog, flush, Buffer, Appender, optional, Ended, flushed, flush_pending,
}
use context_os_mcp.LogRecord.{Calendar}

-- What an append leaves in a log file: its whole record, or what a failure behind the opening of the
-- file left of it, from no byte to all of them.
pub data Piece : Type 0 where
  whole : AppendMutation → Piece
  torn : AppendMutation → Piece

-- An appender whose log files can be read back: an append that succeeds adds its record behind what
-- was there, and one that fails adds nothing or a torn piece of its record.
pub record IsJournal {W E T : Type 0} (append : Appender W E T) (log : W → List Piece)
    : Type 0 where
  pub success :
      (request : AppendMutation) (w w' : W) (result : PipelineResult T AppendOutcome)
      → append request w ≡ (ok result, w')
      → log w' ≡ log w ++ whole request ∷ []
  pub failure :
      (request : AppendMutation) (w w' : W) (e : E)
      → append request w ≡ (err e, w')
      → (log w' ≡ log w) ⊎ (log w' ≡ log w ++ torn request ∷ [])

module _ {W E T : Type 0} (append : Appender W E T) (log : W → List Piece) where
  -- Of the records that were to be appended, the first ones are in the log file, each once and whole,
  -- and the others are pending, in order; behind the former stands at most one torn piece, of the
  -- first record that is pending.
  pub record Splits (records : List AppendMutation) (w : W) (out : Ended W E T) : Type 0 where
    pub done : List AppendMutation
    pub tail : List Piece
    pub split : records ≡ done ++ out.1.pending
    pub grown : log out.2 ≡ log w ++ (map whole done ++ tail)
    pub last_torn :
        (tail ≡ [])
        ⊎ ((request : AppendMutation) × (rest : List AppendMutation) × (out.1.pending
              ≡ request ∷ rest)
            × (tail ≡ torn request ∷ []))

  -- The records are those of the buffer and at most one new one.
  pub record Conserves (buffer : Buffer) (w : W) (out : Ended W E T) : Type 0 where
    pub added : List AppendMutation
    pub at_most_one : length added ≤ 1
    pub splits : Splits (buffer.pending ++ added) w out

  module _ (law : IsJournal append log) where
    failing-Splits :
        (request : AppendMutation) (rest : List AppendMutation) (poisoned : Bool) (w w' : W)
        (r : Result (OperationLogError E) (List (OperationEvent T)))
        → (log w' ≡ log w) ⊎ (log w' ≡ log w ++ torn request ∷ [])
        → Splits
            (request ∷ rest)
            w
            (r, record { pending = request ∷ rest; poisoned = poisoned }, w')
    failing-Splits request rest poisoned w w' r (inl same) = record {
      done = [];
      tail = [];
      split = refl;
      grown = same ∙ sym (append-nil (log w));
      last_torn = inl refl;
    }
    failing-Splits request rest poisoned w w' r (inr longer) = record {
      done = [];
      tail = torn request ∷ [];
      split = refl;
      grown = longer;
      last_torn = inr (request, rest, refl, refl);
    }

    flush_pending-Splits :
        (pending : List AppendMutation) (events : List (OperationEvent T)) (poisoned : Bool) (w : W)
        → Splits pending w (flush_pending append events pending poisoned w)
    unfolding flush_pending
    flush_pending-Splits [] events poisoned w = record {
      done = [];
      tail = [];
      split = refl;
      grown = sym (append-nil (log w));
      last_torn = inl refl;
    }
    flush_pending-Splits (request ∷ rest) events poisoned w =
        go (append request w) refl
          (λ event w'. flush_pending-Splits rest (events ++ optional event) poisoned w')
      where
        go :
            (x : Result E (PipelineResult T AppendOutcome) × W)
            → append request w ≡ x
            → ((event : Option (OperationEvent T)) (w' : W)
                → Splits rest w' (flush_pending append (events ++ optional event) rest poisoned w'))
            → Splits (request ∷ rest) w (
                flushed request rest poisoned x.0
                  (λ event. flush_pending append (events ++ optional event) rest poisoned x.1)
                  x.1)
        go (ok result, w') e ih =
            let further = ih result.event w' in
            record {
              done = request ∷ further.done;
              tail = further.tail;
              split = ap (λ l. request ∷ l) further.split;
              grown =
                  further.grown
                  ∙ ap (λ l. l ++ (map whole further.done ++ further.tail))
                      (law.success request w w' result e)
                  ∙ append_assoc (log w) (whole request ∷ [])
                      (map whole further.done ++ further.tail);
              last_torn = further.last_torn;
            }
        go (err x, w') e ih =
            failing-Splits request rest poisoned w w' (err (append_error x))
              (law.failure request w w' x e)

    untouched :
        (buffer : Buffer) (w : W) (r : Result (OperationLogError E) (List (OperationEvent T)))
        → Conserves buffer w (r, buffer, w)
    untouched buffer w r = record {
      added = [];
      at_most_one = omega arith;
      splits = record {
        done = [];
        tail = [];
        split = append-nil buffer.pending;
        grown = sym (append-nil (log w));
        last_torn = inl refl;
      };
    }

    locked-Conserves :
        (buffer : Buffer) (added : List AppendMutation) (w : W)
        → length added ≤ 1
        → Conserves buffer w (
            locked buffer
              (λ _. flush_pending append [] (buffer.pending ++ added) buffer.poisoned w)
              w)
    locked-Conserves buffer added w few = go buffer.poisoned
      where
        go :
            (b : Bool)
            → Conserves buffer w (elim b [
              | true ↦ (err buffer_unavailable, buffer, w)
              | false ↦ flush_pending append [] (buffer.pending ++ added) buffer.poisoned w
            ])
        go true = untouched buffer w _
        go false = record {
          added = added;
          at_most_one = few;
          splits = flush_pending-Splits (buffer.pending ++ added) [] buffer.poisoned w;
        }

    at_path-Conserves :
        (r : Result Fault VaultPath) (make : VaultPath → AppendMutation) (buffer : Buffer) (w : W)
        → Conserves buffer w (at_path r make append buffer w)
    unfolding enqueue
    at_path-Conserves (ok path) make buffer w = locked-Conserves buffer _ w (omega arith)
    at_path-Conserves (err fault) make buffer w = untouched buffer w _

    -- Retrying the buffer adds no record and loses none.
    flush-Conserves : (buffer : Buffer) (w : W) → Conserves buffer w (flush append buffer w)
    unfolding flush
    flush-Conserves buffer w =
        subst
          (λ l.
            Conserves buffer w (locked buffer (λ _. flush_pending append [] l buffer.poisoned w) w))
          (append-nil buffer.pending) (locked-Conserves buffer [] w (omega arith))

    module _ (host : Host) (config : OperationLog) (c : Calendar T) where
      append_record-Conserves :
          (at : T) (origin operation summary : Text) (files : List VaultPath) (buffer : Buffer)
          (w : W)
          → Conserves buffer w
              (append_record host config c append at origin operation summary files buffer w)
      unfolding append_record
      append_record-Conserves at origin operation summary files buffer w =
          at_path-Conserves (try_from host config.roots _) _ buffer w

      append_event-Conserves :
          (event : OperationEvent T) (buffer : Buffer) (w : W)
          → Conserves buffer w (append_event host config c append event buffer w)
      unfolding append_event
      append_event-Conserves event buffer w = go event.origin
        where
          files_of :
              (name : Text) (files : List VaultPath)
              → Conserves buffer w (log_files host config c append event name files buffer w)
          files_of name [] = untouched buffer w _
          files_of name (file ∷ files) = append_record-Conserves event.at _ _ _ _ buffer w

          go : (o : Origin) → Conserves buffer w (by_origin host config c append event o buffer w)
          go (internal _) = untouched buffer w _
          go (tool name) = files_of name _

      append_manual-Conserves :
          (input : ManualLogInput T) (buffer : Buffer) (w : W)
          → Conserves buffer w (append_manual host config c append input buffer w)
      unfolding append_manual
      append_manual-Conserves input buffer w =
          choose (is_empty (trim input.entry))
            (any (λ (p : VaultPath). not (p.root.value == config.root_id.value)) input.files)
        where
          choose :
              (a b : Bool)
              → Conserves buffer w (
                  if a
                  then (err empty_manual_entry, buffer, w)
                  else if b
                  then (err wrong_root, buffer, w)
                  else append_record host config c append input.at
                      (codes "manual")
                      (codes "log")
                      input.entry
                      input.files
                      buffer
                      w)
          choose true b = untouched buffer w _
          choose false true = untouched buffer w _
          choose false false = append_record-Conserves input.at _ _ _ _ buffer w

      -- If an append that succeeds adds its record at the end of the log file, and one that fails,
      -- at whatever step, adds nothing or a torn piece of it, then every operation of the log takes
      -- the records that were buffered, with at most one new one behind them, and leaves the first
      -- ones whole in the log file, each once, and all others in the buffer, in the same order;
      -- behind the former the log file has nothing more, or one torn piece of the first record that
      -- stays buffered.
      pub operations-Conserves :
          (event : OperationEvent T) (input : ManualLogInput T) (buffer : Buffer) (w : W)
          → Conserves buffer w (append_event host config c append event buffer w)
            × Conserves buffer w (append_manual host config c append input buffer w)
            × Conserves buffer w (flush append buffer w)
      operations-Conserves event input buffer w = (
        append_event-Conserves event buffer w,
        append_manual-Conserves input buffer w,
        flush-Conserves buffer w,
      )
