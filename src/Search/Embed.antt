-- ===== src/Search/Embed.antt =====
-- How the embedding worker brings one path up to date
-- (crates/contextos-search/src/embedding_worker.rs): `process_path`, `embed_path` and `failed`. The
-- vector store (vector_store.rs), the embedder (embedding.rs), the content source and the clock
-- are ports over a world `W`; `V` is a vector and `T` a time.
pub mod Store
pub mod Replace
pub mod Asked
pub mod Refine
use context_os_mcp.Host.{Host}
use context_os_mcp.Hash.{ContentHash, hash_eq}
use context_os_mcp.Vault.Confine
use context_os_mcp.Chunk.Document.{chunk_document, Chunk}
use context_os_mcp.Vault.Set.{VaultSet}
use context_os_mcp.Operation.{OperationWarning}
use context_os_mcp.Vault.Confine.{panicked, refused, Fault, VaultPath}
use context_os_mcp.Exec.{◌>>=◌, Exec, Act}
use context_os_mcp.Prelude.{
  List, Option, Result, Text, [], codes, decimal, err, if◌then◌else◌, length, map, nat_eq, none,
  not, ok, option_eq, some, ℕ, ◌++◌, ◌+◌, ◌==◌, ◌∷◌,
}
use context_os_mcp.Search.Error.{
  SearchError, embedding_shape_mismatch, embedding_path_invalid, crashed, warning_from,
}

pub record VectorRecord (V : Type 0) : Type 0 where
  pub path : Text
  pub ordinal : ℕ
  pub heading_context : List Text
  pub content_hash : ContentHash
  pub vector : V

pub data PathEmbeddingOutcome : Type 0 where
  -- with the chunks embedded and the chunks skipped
  embedded : Text → ℕ → ℕ → PathEmbeddingOutcome
  removed : Text → PathEmbeddingOutcome
  failed : Text → OperationWarning → PathEmbeddingOutcome

pub record EmbeddingPorts (W S V T : Type 0) : Type 0 where
  pub roots : VaultSet
  pub host : W → Host
  pub sha256 : List ℕ → List ℕ
  pub to_string : SearchError S → Text
  -- `ReadsChunkSource::read`
  pub read : Text → Exec W (SearchError S) (Option Text)
  -- `StoresVectors`
  pub upsert : List (VectorRecord V) → Exec W (SearchError S) (Unit {0})
  pub delete : Text → Exec W (SearchError S) (Unit {0})
  pub existing_hash : Text → ℕ → Exec W (SearchError S) (Option ContentHash)
  pub prune_ordinals_at_or_beyond : Text → ℕ → Exec W (SearchError S) (Unit {0})
  -- `EmbedsText::embed`
  pub embed : List Chunk → Exec W (SearchError S) (List V)
  -- `Clock::now`
  pub now : Act W T

abbrev pub zip : {A B : Type 0} → List A → List B → List (A × B)
zip [] ys = []
zip (x ∷ xs) [] = []
zip (x ∷ xs) (y ∷ ys) = (x, y) ∷ zip xs ys

abbrev pub vector_record : {V : Type 0} → Chunk × V → VectorRecord V
vector_record (chunk, vector) = record {
  path = chunk.path;
  ordinal = chunk.ordinal;
  heading_context = chunk.heading_context;
  content_hash = chunk.content_hash;
  vector = vector;
}

-- What the loop has for a chunk and its stored hash, from what it has for the chunks behind it.
abbrev pub sort_chunk : Option ContentHash → Chunk → List Chunk × ℕ → List Chunk × ℕ
sort_chunk existing chunk (to_embed, skipped) =
    if existing == some chunk.content_hash
    then (to_embed, skipped + 1)
    else (chunk ∷ to_embed, skipped)

module _ {W S V T : Type 0} (ports : EmbeddingPorts W S V T) where
  open ports use {
    roots, host, sha256, to_string, read, upsert, delete, existing_hash,
    prune_ordinals_at_or_beyond, embed,
  }

  abbrev pub Task : Type 0 → Type 0
  Task A = Exec W (SearchError S) A

  abbrev pub return : {A : Type 0} → A → Task A
  return a w = (ok a, w)

  abbrev pub raise : {A : Type 0} → SearchError S → Task A
  raise e w = (err e, w)

  abbrev pub to_error : {A : Type 0} → Text → Result Fault A → Result (SearchError S) A
  to_error path (ok a) = ok a
  to_error path (err (refused source)) = err (embedding_path_invalid path source)
  to_error path (err panicked) = err crashed

  abbrev pub made_chunks : Option (List Chunk) → Result (SearchError S) (List Chunk)
  made_chunks (some chunks) = ok chunks
  made_chunks none = err crashed

  -- The loop over the chunks: those to embed, and how many are skipped.
  unfoldable pub select_chunks : List Chunk → Task (List Chunk × ℕ)
  unfolding ◌>>=◌
  select_chunks [] = return ([], 0)
  select_chunks (chunk ∷ chunks) = existing_hash chunk.path chunk.ordinal >>= λ existing.
      select_chunks chunks >>= λ rest. return (sort_chunk existing chunk rest)

  abbrev pub shape_mismatch : ℕ → ℕ → SearchError S
  shape_mismatch vectors chunks = embedding_shape_mismatch (
      codes "embedder returned "
      ++ decimal vectors
      ++ codes " vectors for "
      ++ decimal chunks
      ++ codes " chunks")

  abbrev pub store_vectors : List Chunk → List V → Task (Unit {0})
  store_vectors chunks vectors =
      if not (length vectors == length chunks)
      then raise (shape_mismatch (length vectors) (length chunks))
      else upsert (map vector_record (zip chunks vectors))

  -- The branch on `to_embed`
  unfoldable pub embed_chunks : List Chunk → Task (Unit {0})
  unfolding ◌>>=◌
  embed_chunks [] = return tt
  embed_chunks (chunk ∷ chunks) =
      embed (chunk ∷ chunks) >>= λ vectors. store_vectors (chunk ∷ chunks) vectors

  -- `embed_path` from the loop on, with the counts of its outcome
  unfoldable pub update_rows : Text → List Chunk → Task (ℕ × ℕ)
  unfolding ◌>>=◌
  update_rows path chunks = select_chunks chunks >>= λ (to_embed, skipped).
      embed_chunks to_embed >>= λ _.
      prune_ordinals_at_or_beyond path (length chunks) >>= λ _. return (length to_embed, skipped)

  abbrev pub with_chunks : Text → Result (SearchError S) (List Chunk) → Task (ℕ × ℕ)
  with_chunks path (ok chunks) = update_rows path chunks
  with_chunks path (err error) = raise error

  abbrev pub chunks_at :
      Text → Result (SearchError S) VaultPath → Result (SearchError S) (List Chunk)
  chunks_at content (ok path) =
      made_chunks (chunk_document sha256 (record { path = path; content = content }))
  chunks_at content (err error) = err error

  -- The chunks of a content at a path, which the host resolves.
  unfoldable pub chunks_of : Text → Text → W → Result (SearchError S) (List Chunk)
  chunks_of path content w =
      chunks_at content (to_error path (Confine.try_from (host w) roots path))

  -- `embed_path`
  unfoldable pub embed_path : Text → Text → Task (ℕ × ℕ)
  embed_path path content w = with_chunks path (chunks_of path content w) w

  abbrev pub outcome_of : Text → Result (SearchError S) (ℕ × ℕ) → PathEmbeddingOutcome
  outcome_of path (ok (count, skipped)) = embedded path count skipped
  outcome_of path (err error) = failed path (warning_from to_string error)

  abbrev pub removal_of : Text → Result (SearchError S) (Unit {0}) → PathEmbeddingOutcome
  removal_of path (ok _) = removed path
  removal_of path (err error) = failed path (warning_from to_string error)

  abbrev pub reported : {A : Type 0} → (A → PathEmbeddingOutcome) → A × W → PathEmbeddingOutcome × W
  reported outcome (a, w) = (outcome a, w)

  abbrev pub process_content :
      Text → Result (SearchError S) (Option Text) × W → PathEmbeddingOutcome × W
  process_content path (ok none, w) = reported (removal_of path) (delete path w)
  process_content path (ok (some content), w) =
      reported (outcome_of path) (embed_path path content w)
  process_content path (err error, w) = (failed path (warning_from to_string error), w)

  -- `process_path`
  unfoldable pub process_path : Text → Act W PathEmbeddingOutcome
  process_path path w = process_content path (read path w)
