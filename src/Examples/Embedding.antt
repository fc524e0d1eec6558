-- ===== src/Examples/Embedding.antt =====
-- The embedding worker over a store that is a function, with one note and one path that is gone.
use context_os_mcp.Examples.Services.{todo}
use context_os_mcp.FilePath.{join, components}
use context_os_mcp.Chunk.Split.{
  walk_back, grow, tokens_between, chars_between, prefix_sums, prefix_from, estimate_tokens,
  fold_last, ranges_from, split_ranges, split_section_words,
}
use context_os_mcp.Chunk.Headings.{strip_closing_hashes, detect_atx_heading}
use context_os_mcp.Vault.Resolve.{push_all, at_ancestor, climb, resolve_with_missing_suffix}
use context_os_mcp.Chunk.Sections.{flush_section, read_line, read_lines, parse_sections}
use context_os_mcp.Vault.Lexical.{validate_windows_input, validate_lexical_input}
use context_os_mcp.Search.Worker.Drained.{drain-Ends, Ends, shutdown_completes, outcome_path}
use context_os_mcp.Operation.{forward_slash_display}
use context_os_mcp.Search.Queue.Fifo.{enqueues, here, next, Reach-IsQueue, IsQueue}
use context_os_mcp.Chunk.Document.{
  slice, spans_from, word_spans, chunk_ranges, chunk_sections, Chunk, chunk_document,
  relative_display,
}
use context_os_mcp.Search.Embed.Asked.{IsWatched}
use context_os_mcp.Search.Embed.Refine.{IsCanonical, process_path-IsRefined, IsRefined}
use context_os_mcp.Search.Worker.{drain, shutdown, EmbeddingWorker}
use context_os_mcp.Vault.Confine.{split_once, select, build, finish, resolve_plain, named_prefix}
use context_os_mcp.Search.Queue.{empty_queue, enqueue, QueueState}
use context_os_mcp.Prelude.{
  ◌++◌, refl, leb, ◌+◌, ◌∙◌, ok-injective, ap, false, bytes, ◌∷◌, ◌≡◌, List, Option, Text, [],
  codes, if◌then◌else◌, list_eq, map, nat_eq, none, ok, some, sym, take, ℕ, ◌&&◌, ◌==◌, ◌||◌,
}
use context_os_mcp.Prelude
use context_os_mcp.Vault.Confine
use context_os_mcp.Vault.Root.{id_try_from}
use context_os_mcp.Exec.{◌>>=◌, Exec, ok_pair}
use context_os_mcp.Hash.{from_bytes}
use context_os_mcp.Vault.Set.{VaultSet}
use context_os_mcp.Search.Error.{SearchError}
use context_os_mcp.Search.Embed.{
  embed_chunks, select_chunks, update_rows, PathEmbeddingOutcome, embedded, embed_path,
  process_path, chunks_of, EmbeddingPorts,
}
use context_os_mcp.Search.Embed.Store.{
  put_row, Rows, IsStore, put_records, prune_rows, replace_rows,
}
use context_os_mcp.Examples.Server.{server, both}

abbrev one_root : VaultSet
one_root = record { roots = take 1 both.roots }

abbrev todo_path : Text
todo_path = codes "todo.md"

abbrev done_path : Text
done_path = codes "done.md"

abbrev vault_content : Text → Option Text
vault_content path = if path == todo_path then some (codes "# One\ntwo words") else none

-- The rows of the store, and the chunks that were embedded.
abbrev World : Type 0
World = Rows × List Chunk

abbrev surely : {A : Type 0} → (Rows → A) → Exec World (SearchError (Unit {0})) A
surely f w = (ok (f w.0), w)

abbrev then_rows : (Rows → Rows) → Exec World (SearchError (Unit {0})) (Unit {0})
then_rows f w = (ok tt, (f w.0, w.1))

abbrev desk : EmbeddingPorts World (Unit {0}) ℕ ℕ
desk = record {
  roots = one_root;
  host = λ w. server;
  sha256 = λ bs. bs;
  to_string = λ e. [];
  read = λ path. surely (λ rows. vault_content path);
  upsert = λ records. then_rows (λ rows. put_records rows records);
  delete = λ path. then_rows (replace_rows path []);
  existing_hash = λ path ordinal. surely (λ rows. rows path ordinal);
  prune_ordinals_at_or_beyond = λ path n. then_rows (λ rows. prune_rows rows path n);
  embed = λ chunks w. (ok (map (λ c. 7) chunks), (w.0, w.1 ++ chunks));
  now = λ w. (3, w);
}

abbrev stored : World → Rows
stored w = w.0

abbrev asked : World → List Chunk
asked w = w.1

desk-IsStore : IsStore desk stored
desk-IsStore = record {
  existing = λ p o w w' found h. (sym (ok_pair h).0, sym (ap stored (ok_pair h).1));
  upserted = λ records w w' h. sym (ap stored (ok_pair h).1);
  deleted = λ p w w' h. sym (ap stored (ok_pair h).1);
  pruned = λ p n w w' h. sym (ap stored (ok_pair h).1);
  embedded_only = λ chunks w w' vectors h. sym (ap stored (ok_pair h).1);
  read_only = λ p w w' content h. sym (ap stored (ok_pair h).1);
}

desk-IsWatched : IsWatched desk asked
desk-IsWatched = record {
  asks = λ chunks w. refl;
  read = λ p w. refl;
  upsert = λ records w. refl;
  delete = λ p w. refl;
  existing_hash = λ p o w. refl;
  prune = λ p n w. refl;
}

-- A row of another path, and a stale one of the note.
abbrev old_rows : Rows
old_rows path ordinal =
    if path == done_path && ordinal == 0 || path == todo_path && ordinal == 4
    then some (from_bytes [])
    else none

resolved : Confine.try_from server one_root todo_path ≡ ok todo
unfolding Confine.try_from named_prefix resolve_plain finish build select split_once
    validate_lexical_input validate_windows_input resolve_with_missing_suffix climb at_ancestor
    push_all components join id_try_from Prelude.◌>>=◌
resolved = refl

todo_path-IsCanonical : IsCanonical desk stored desk-IsStore asked desk-IsWatched todo_path
unfolding relative_display forward_slash_display
todo_path-IsCanonical w p h = ap relative_display (ok-injective (sym h ∙ resolved))

abbrev todo_chunk : Chunk
todo_chunk = record {
  path = todo_path;
  ordinal = 0;
  heading_context = codes "One" ∷ [];
  text = codes "two words";
  content_hash = from_bytes (bytes (codes "two words"));
}

one_chunk :
    chunk_document (λ bs. bs) (record { path = todo; content = codes "# One\ntwo words" })
    ≡ some (todo_chunk ∷ [])
unfolding chunk_document chunk_sections chunk_ranges word_spans spans_from slice relative_display
    forward_slash_display parse_sections read_lines read_line flush_section detect_atx_heading
    strip_closing_hashes split_section_words split_ranges ranges_from fold_last estimate_tokens
    prefix_from prefix_sums chars_between tokens_between grow walk_back
one_chunk = refl

chunks_of_todo :
    chunks_of desk todo_path (codes "# One\ntwo words") (old_rows, []) ≡ ok (todo_chunk ∷ [])
unfolding chunks_of
chunks_of_todo = rw (resolved, one_chunk) refl

abbrev new_rows : Rows
new_rows = prune_rows (put_row old_rows todo_path 0 todo_chunk.content_hash) todo_path 1

embeds_todo :
    process_path desk todo_path (old_rows, [])
    ≡ (embedded todo_path 1 0, (new_rows, todo_chunk ∷ []))
unfolding process_path embed_path update_rows select_chunks embed_chunks ◌>>=◌
embeds_todo = rw chunks_of_todo refl

process_path-IsRefined_example :
    IsRefined desk stored desk-IsStore asked desk-IsWatched todo_path
      (embedded todo_path 1 0)
      (old_rows, [])
      (new_rows, todo_chunk ∷ [])
process_path-IsRefined_example =
    process_path-IsRefined desk stored desk-IsStore asked desk-IsWatched todo_path (old_rows, [])
      todo_path-IsCanonical embeds_todo

-- The same path twice, and one that is gone.
abbrev busy_queue : QueueState
busy_queue = record {
  order = done_path ∷ todo_path ∷ [];
  members = todo_path ∷ done_path ∷ [];
  closed = false;
}

queued : enqueue done_path (enqueue todo_path (enqueue done_path empty_queue)) ≡ busy_queue
unfolding enqueue
queued = refl

Reach-IsQueue_example :
    IsQueue (enqueue done_path (enqueue todo_path (enqueue done_path empty_queue)))
Reach-IsQueue_example =
    Reach-IsQueue (enqueue done_path (enqueue todo_path (enqueue done_path empty_queue))) (
      next (next (next here (enqueues empty_queue done_path)) (enqueues _ todo_path))
        (enqueues _ done_path))

abbrev worker : EmbeddingWorker World ℕ
worker = record {
  queue = busy_queue;
  stats = record { pending = 0; processed = 0; failed_count = 0; last_processed_at = none };
  world = (old_rows, []);
}

drain-Ends_example : Ends desk worker (drain desk worker)
drain-Ends_example = drain-Ends desk worker

shutdown_completes_example :
    (outcomes : List PathEmbeddingOutcome) × (v : EmbeddingWorker World ℕ) × (shutdown desk worker
      ≡ some (outcomes, v))
    × (map outcome_path outcomes ≡ done_path ∷ todo_path ∷ [])
    × ((path : Text) → (enqueue path v.queue).order ≡ [])
shutdown_completes_example = shutdown_completes desk worker
