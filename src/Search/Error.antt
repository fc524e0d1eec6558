-- ===== src/Search/Error.antt =====
-- `SearchError` (crates/contextos-search/src/error.rs); `S` is the type of the sources, which are
-- errors of the libraries, and the text of an error is made by the thiserror crate.
use context_os_mcp.Prelude.{Text, codes, ℕ}
use context_os_mcp.Operation.{OperationWarning}
use context_os_mcp.Vault.Error.{PathError}
use context_os_mcp.Vault.Error

pub data SearchError (S : Type 0) : Type 0 where
  index_storage : S → SearchError S
  index_directory document_read graph_storage vector_storage : Text → S → SearchError S
  -- the query, or the vector store, and the reason
  invalid_query vector_record_corrupt : Text → Text → SearchError S
  invalid_field_filter graph_locked unknown_note : Text → SearchError S
  invalid_depth : ℕ → SearchError S
  text_disabled graph_disabled semantic_unavailable : SearchError S
  -- the directory or the endpoint, and the reason
  embedding_model_unavailable embedding_transport : Text → Text → SearchError S
  local_embedding_disabled : SearchError S
  embedding_api_key_missing embedding_config embedding_insecure_endpoint : Text → SearchError S
  -- the endpoint, with the limit in milliseconds or in bytes
  embedding_timeout embedding_response_too_large : Text → ℕ → SearchError S
  embedding_provider_status : Text → ℕ → Text → SearchError S
  embedding_shape_mismatch : Text → SearchError S
  vector_dimension_invalid : ℕ → SearchError S
  -- the path, the ordinal, the dimension expected and the actual one
  vector_dimension_mismatch : Text → ℕ → ℕ → ℕ → SearchError S
  vector_ordinal_out_of_range : Text → ℕ → SearchError S
  embedding_path_invalid : Text → PathError → SearchError S
  -- a panic of path validation or of chunking, which never happens
  crashed : SearchError S

-- `SearchError::code`
unfoldable pub code : {S : Type 0} → SearchError S → Text
code (index_storage _) = codes "index/storage"
code (index_directory _ _) = codes "index/storage"
code (document_read _ _) = codes "index/storage"
code (graph_storage _ _) = codes "index/storage"
code (graph_locked _) = codes "index/locked"
code (invalid_query _ _) = codes "index/invalid-query"
code (invalid_field_filter _) = codes "index/invalid-query"
code (invalid_depth _) = codes "index/invalid-query"
code (unknown_note _) = codes "path/not-found"
code text_disabled = codes "index/disabled"
code graph_disabled = codes "index/disabled"
code semantic_unavailable = codes "index/disabled"
code (embedding_model_unavailable _ _) = codes "embedding/local-unavailable"
code local_embedding_disabled = codes "embedding/local-unavailable"
code (embedding_api_key_missing _) = codes "embedding/config"
code (embedding_config _) = codes "embedding/config"
code (embedding_insecure_endpoint _) = codes "embedding/config"
code (embedding_timeout _ _) = codes "embedding/timeout"
code (embedding_response_too_large _ _) = codes "embedding/response-too-large"
code (embedding_provider_status _ _ _) = codes "embedding/provider-error"
code (embedding_shape_mismatch _) = codes "embedding/provider-error"
code (embedding_transport _ _) = codes "embedding/network"
code (vector_dimension_invalid _) = codes "vector/config"
code (vector_dimension_mismatch _ _ _ _) = codes "vector/config"
code (vector_ordinal_out_of_range _ _) = codes "vector/config"
code (vector_storage _ _) = codes "vector/storage"
code (vector_record_corrupt _ _) = codes "vector/storage"
code (embedding_path_invalid _ source) = Error.code source
code crashed = codes "search/crashed"

-- `OperationWarning::from(SearchError)`, with the text of the error given
unfoldable pub warning_from :
    {S : Type 0} → (SearchError S → Text) → SearchError S → OperationWarning
unfolding code
warning_from to_string error = record { code = code error; message = to_string error }
