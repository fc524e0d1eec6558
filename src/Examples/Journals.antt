-- ===== src/Examples/Journals.antt =====
-- The operation log over appenders that have room for one record.
use context_os_mcp.Prelude.{
  inr, List, Text, [], arith, codes, err, false, if◌then◌else◌, length, nat_eq, ok, refl, some, ℕ,
  ◌++◌, ◌==◌, ◌∷◌, ◌≡◌,
}
use context_os_mcp.Operation.{tool, internal, create, OperationEvent, AppendMutation}
use context_os_mcp.Oplog.{
  flush_pending, append_error, OperationLog, Buffer, ManualLogInput, Appender, flush, append_event,
  append_manual,
}
use context_os_mcp.LogRecord.{Calendar, record_line}
use context_os_mcp.Oplog.Journal.{Piece, whole, torn, IsJournal, Conserves, operations-Conserves}
use context_os_mcp.Oplog.Retry.{append_all, flush_fails}
use context_os_mcp.LogRecord.Line.{newlines, record_line-one_line}
use context_os_mcp.Examples.Server.{server, both, notes_root}
use context_os_mcp.Examples.Services.{todo}

abbrev appended_event : AppendMutation → OperationEvent ℕ
appended_event request = record {
  kind = create;
  paths = request.path ∷ [];
  origin = request.origin;
  summary = codes "Appended";
  at = 5;
}

abbrev one_record : Appender (List AppendMutation) ℕ ℕ
one_record request w =
    if length w == 0
    then (
      ok (record {
        value = record { path = request.path; bytes_appended = 4; created = false };
        event = some (appended_event request);
        warnings = [];
      }),
      w ++ request ∷ [],
    )
    else (err 28, w)

-- A disk that fills up: a second append leaves a torn piece of its record.
abbrev one_piece : Appender (List Piece) ℕ ℕ
one_piece request w =
    if length w == 0
    then (
      ok (record {
        value = record { path = request.path; bytes_appended = 4; created = false };
        event = some (appended_event request);
        warnings = [];
      }),
      w ++ whole request ∷ [],
    )
    else (err 28, w ++ torn request ∷ [])

one_piece-IsJournal : IsJournal one_piece (λ w. w)
one_piece-IsJournal = record {
  success = λ request w w' result h. ground arith;
  failure = λ request w w' e h. inr (ground arith);
}

abbrev line : Text → AppendMutation
line content = record {
  path = todo;
  preamble = [];
  content = content;
  origin = internal (codes "oplog");
}

abbrev log : OperationLog
log = record {
  root = notes_root;
  root_id = record { value = 0 };
  roots = both;
  relative_directory = codes "logs";
}

abbrev days : Calendar ℕ
days = record {
  year = λ _. 2026;
  month = λ _. 7;
  day = λ t. t;
  hour = λ _. 9;
  minute = λ _. 5;
  second = λ _. 30;
}

abbrev changed : OperationEvent ℕ
changed = record {
  kind = create;
  paths = todo ∷ [];
  origin = tool (codes "vault_write");
  summary = codes "Created todo.md";
  at = 5;
}

abbrev noted : ManualLogInput ℕ
noted = record { entry = codes "lunch\nbreak"; files = todo ∷ []; at = 5 }

abbrev waiting : Buffer
waiting = record { pending = line (codes "a") ∷ line (codes "b") ∷ []; poisoned = false }

-- The second record is in the log file as a torn piece, and is pending.
torn_flush : flush one_piece waiting [] ≡ (
  err (append_error 28),
  record { pending = line (codes "b") ∷ []; poisoned = false },
  whole (line (codes "a")) ∷ torn (line (codes "b")) ∷ [],
)
unfolding flush flush_pending
torn_flush = refl

operations-Conserves_example :
    Conserves one_piece
      (λ w. w)
      waiting
      []
      (append_event server log days one_piece changed waiting [])
    × Conserves one_piece
        (λ w. w)
        waiting
        []
        (append_manual server log days one_piece noted waiting [])
    × Conserves one_piece (λ w. w) waiting [] (flush one_piece waiting [])
operations-Conserves_example =
    operations-Conserves one_piece (λ w. w) one_piece-IsJournal server log days changed noted
      waiting []

one_appended :
    append_all one_record (line (codes "a") ∷ []) [] []
    ≡ (ok (appended_event (line (codes "a")) ∷ []), line (codes "a") ∷ [])
unfolding append_all
one_appended = refl

flush_fails_example : flush one_record waiting [] ≡ (
  err (append_error 28),
  record { pending = line (codes "b") ∷ []; poisoned = false },
  line (codes "a") ∷ [],
)
flush_fails_example =
    flush_fails one_record (line (codes "a") ∷ []) [] (line (codes "b"))
      (appended_event (line (codes "a")) ∷ []) 28 [] (line (codes "a") ∷ []) (line (codes "a") ∷ [])
      one_appended refl

record_line-one_line_example :
    (body : Text) × (record_line days 5
        (codes "manual")
        (codes "log")
        (codes "lunch\nbreak | done")
        (todo ∷ [])
      ≡ body ++ codes "\n")
    × (newlines body ≡ 0)
record_line-one_line_example =
    record_line-one_line days 5 (codes "manual") (codes "log") (codes "lunch\nbreak | done")
      (todo ∷ [])
