-- ===== src/Oplog/Warning.antt =====
-- The log behind the port `LogsOperations`: its errors as warnings. `to_string` is the text of an
-- error.
use context_os_mcp.Prelude.{List, Result, Text, codes, map_err}
use context_os_mcp.Host.{Host}
use context_os_mcp.Vault.Error
use context_os_mcp.Operation.{OperationEvent, OperationWarning}
use context_os_mcp.Oplog.{
  OperationLogError, path_error, OperationLog, Buffer, Appender, append_event,
}
use context_os_mcp.LogRecord.{Calendar}

-- `OperationLogError::code`
unfoldable pub error_code : {E : Type 0} → OperationLogError E → Text
error_code (path_error e) = Error.code e
error_code _ = codes "log/append"

-- `OperationWarning::from(OperationLogError)`
unfoldable pub warning_from :
    {E : Type 0} → (OperationLogError E → Text) → OperationLogError E → OperationWarning
warning_from to_string value = record { code = error_code value; message = to_string value }

-- `OperationLog::append`, of `LogsOperations`
unfoldable pub log_operation :
    {W E T : Type 0}
    → (OperationLogError E → Text)
    → Host
    → OperationLog
    → Calendar T
    → Appender W E T
    → OperationEvent T
    → Buffer
    → W
    → Result OperationWarning (List (OperationEvent T)) × Buffer × W
log_operation to_string host log c append event buffer w =
    let (answer, left, w') = append_event host log c append event buffer w in
    (map_err (warning_from to_string) answer, left, w')
