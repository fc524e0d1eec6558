-- ===== src/Oplog.antt =====
-- The operation log (crates/contextos-oplog/src/lib.rs): daily files that are only appended to,
-- with a retry buffer in front of the appender.
pub mod Journal
pub mod Retry
pub mod Warning
use context_os_mcp.Prelude.{
  Bool, List, Option, Result, Text, [], any, codes, contains, err, false, if◌then◌else◌, is_empty,
  keep, list_eq, map_err, nat_eq, none, not, ok, position, some, trim, true, ℕ, ◌&&◌, ◌++◌, ◌==◌,
  ◌>>=◌, ◌||◌, ◌∷◌,
}
use context_os_mcp.Exec.{Exec}
use context_os_mcp.FilePath.{FilePath, root_dir, parent_dir, component_eq, components, is_absolute}
use context_os_mcp.LogRecord.{
  Calendar, operation_name, joined_text, relative_file, record_line, preamble_text, single_line,
}
use context_os_mcp.Host.{Host}
use context_os_mcp.Vault.Error.{PathError}
use context_os_mcp.Vault.Root.{VaultRootId, VaultRoot, id_try_from}
use context_os_mcp.Vault.Set.{VaultSet}
use context_os_mcp.Vault.Confine.{VaultPath, Fault, refused, panicked, try_from}
use context_os_mcp.Operation.{Origin, tool, internal, OperationEvent, AppendMutation, AppendOutcome}
use context_os_mcp.Pipeline.{PipelineResult}

pub data OperationLogError (E : Type 0) : Type 0 where
  invalid_directory root_not_configured wrong_root empty_manual_entry buffer_unavailable :
      OperationLogError E
  path_error : PathError → OperationLogError E
  -- never made, since the texts are Unicode
  non_utf8_path : FilePath → OperationLogError E
  append_error : E → OperationLogError E
  -- a panic of path validation, which never happens
  crashed : OperationLogError E

-- What is fixed when the log is built.
pub record OperationLog : Type 0 where
  pub root : VaultRoot
  pub root_id : VaultRootId
  pub roots : VaultSet
  pub relative_directory : Text

-- The retry buffer behind its mutex, which is poisoned if a holder panicked.
pub record Buffer : Type 0 where
  pub pending : List AppendMutation
  pub poisoned : Bool

pub record ManualLogInput (T : Type 0) : Type 0 where
  pub entry : Text
  pub files : List VaultPath
  pub at : T

abbrev pub is_root : VaultRoot → VaultRoot → Bool
is_root a b =
    a.resolved == b.resolved && (if a.managed then b.managed else not b.managed) && a.name == b.name

abbrev pub built :
    {E : Type 0}
    → VaultRoot
    → VaultSet
    → Text
    → Option ℕ
    → Result (OperationLogError E) OperationLog
built root roots directory none = err root_not_configured
built root roots directory (some index) = map_err path_error (id_try_from index) >>= λ id.
    ok (record { root = root; root_id = id; roots = roots; relative_directory = directory })

-- `OperationLog::try_from`
unfoldable pub try_from_config :
    {E : Type 0} → VaultRoot → VaultSet → Text → Result (OperationLogError E) OperationLog
try_from_config root roots directory =
    if is_empty directory
      || is_absolute (components directory)
      || contains parent_dir (components directory)
      || contains root_dir (components directory)
    then err invalid_directory
    else built root roots directory (position (λ r. is_root r root) roots.roots)

abbrev pub fault_error : {E : Type 0} → Fault → OperationLogError E
fault_error (refused e) = path_error e
fault_error panicked = crashed

-- The appender port: `AppendsVault`.
abbrev pub Appender : Type 0 → Type 0 → Type 0 → Type 0
Appender W E T = AppendMutation → Exec W E (PipelineResult T AppendOutcome)

abbrev pub optional : {A : Type 0} → Option A → List A
optional none = []
optional (some a) = a ∷ []

-- The paths of an event that lie in the log's own root.
abbrev pub own_files : OperationLog → List VaultPath → List VaultPath
own_files log paths = keep (λ (p : VaultPath). p.root.value == log.root_id.value) paths

-- What an operation of the log returns, with the buffer and the world that it leaves.
abbrev pub Ended : Type 0 → Type 0 → Type 0 → Type 0
Ended W E T = Result (OperationLogError E) (List (OperationEvent T)) × Buffer × W

module _ {W E T : Type 0} where
  -- One round of the loop of `flush_pending`: `rest` is the loop after a success.
  abbrev pub flushed :
      AppendMutation
      → List AppendMutation
      → Bool
      → Result E (PipelineResult T AppendOutcome)
      → (Option (OperationEvent T) → Ended W E T)
      → W
      → Ended W E T
  flushed request rest poisoned (err e) loop w =
      (err (append_error e), record { pending = request ∷ rest; poisoned = poisoned }, w)
  flushed request rest poisoned (ok result) loop w = loop result.event

  -- `OperationLog::flush_pending`, with the events of the appends so far.
  unfoldable pub flush_pending :
      Appender W E T → List (OperationEvent T) → List AppendMutation → Bool → W → Ended W E T
  flush_pending append events [] poisoned w =
      (ok events, record { pending = []; poisoned = poisoned }, w)
  flush_pending append events (request ∷ rest) poisoned w =
      let (answer, w') = append request w in
      flushed request rest poisoned answer
        (λ event. flush_pending append (events ++ optional event) rest poisoned w') w'

  -- `self.pending.lock()`
  abbrev pub locked : Buffer → (Unit {0} → Ended W E T) → W → Ended W E T
  locked buffer body w = elim buffer.poisoned [
    | true ↦ (err buffer_unavailable, buffer, w)
    | false ↦ body tt
  ]

  -- `OperationLog::flush`
  unfoldable pub flush : Appender W E T → Buffer → W → Ended W E T
  flush append buffer w =
      locked buffer (λ _. flush_pending append [] buffer.pending buffer.poisoned w) w

  -- The end of `append_record`: the record joins the buffer, and the buffer is flushed.
  unfoldable pub enqueue : Appender W E T → AppendMutation → Buffer → W → Ended W E T
  enqueue append request buffer w =
      locked buffer
        (λ _. flush_pending append [] (buffer.pending ++ request ∷ []) buffer.poisoned w) w

  abbrev pub at_path :
      Result Fault VaultPath
      → (VaultPath → AppendMutation)
      → Appender W E T
      → Buffer
      → W
      → Ended W E T
  at_path (ok path) make append buffer w = enqueue append (make path) buffer w
  at_path (err fault) make append buffer w = (err (fault_error fault), buffer, w)

  -- `OperationLog::append_record`
  unfoldable pub append_record :
      Host
      → OperationLog
      → Calendar T
      → Appender W E T
      → T
      → Text
      → Text
      → Text
      → List VaultPath
      → Buffer
      → W
      → Ended W E T
  append_record host log c append at origin operation summary files buffer w =
      at_path
        (try_from host log.roots
          (joined_text log.root.resolved (relative_file c log.relative_directory at)))
        (λ path. record {
          path = path;
          preamble = preamble_text c at;
          content = record_line c at origin operation summary files;
          origin = internal (codes "oplog");
        })
        append buffer w

  abbrev pub log_files :
      Host
      → OperationLog
      → Calendar T
      → Appender W E T
      → OperationEvent T
      → Text
      → List VaultPath
      → Buffer
      → W
      → Ended W E T
  log_files host log c append event name [] buffer w = (ok [], buffer, w)
  log_files host log c append event name (file ∷ files) buffer w =
      append_record host log c append event.at (single_line name) (operation_name event.kind)
        event.summary (file ∷ files) buffer w

  abbrev pub by_origin :
      Host
      → OperationLog
      → Calendar T
      → Appender W E T
      → OperationEvent T
      → Origin
      → Buffer
      → W
      → Ended W E T
  by_origin host log c append event (internal _) buffer w = (ok [], buffer, w)
  by_origin host log c append event (tool name) buffer w =
      log_files host log c append event name (own_files log event.paths) buffer w

  -- `OperationLog::append_event`
  unfoldable pub append_event :
      Host
      → OperationLog
      → Calendar T
      → Appender W E T
      → OperationEvent T
      → Buffer
      → W
      → Ended W E T
  append_event host log c append event buffer w =
      by_origin host log c append event event.origin buffer w

  -- `OperationLog::append_manual`
  unfoldable pub append_manual :
      Host
      → OperationLog
      → Calendar T
      → Appender W E T
      → ManualLogInput T
      → Buffer
      → W
      → Ended W E T
  append_manual host log c append input buffer w =
      let wrong_file = λ (p : VaultPath). not (p.root.value == log.root_id.value) in
      if is_empty (trim input.entry)
      then (err empty_manual_entry, buffer, w)
      else if any wrong_file input.files
      then (err wrong_root, buffer, w)
      else append_record host log c append input.at (codes "manual") (codes "log") input.entry
          input.files buffer w
