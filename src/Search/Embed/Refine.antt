-- ===== src/Search/Embed/Refine.antt =====
-- `process_path` does what the abstract store promises: it replaces the rows of one path.
use context_os_mcp.Prelude.{
  ◌++◌, All, List, Option, Result, Text, [], ap, ap₂, arith, err, length, map, none, ok,
  ok-injective, refl, some, subst, subst₂, sym, ℕ, ◌+◌, ◌∙◌, ◌≡◌,
}
use context_os_mcp.Exec.{◌>>=◌, and_then-eq-ok, ok_pair}
use context_os_mcp.Chunk.Document.{Chunk, ChunkSource, relative_display}
use context_os_mcp.Chunk.Document.Numbered.{Numbered, chunk_document-Numbered, chunk_document-path}
use context_os_mcp.Vault.Confine.{panicked, Fault, VaultPath}
use context_os_mcp.Vault.Confine
use context_os_mcp.Search.Error.{SearchError}
use context_os_mcp.Search.Embed.{
  refused, Fault, EmbeddingPorts, PathEmbeddingOutcome, embedded, removed, failed, update_rows,
  chunks_of, chunks_at, select_chunks, embed_chunks, process_path, embed_path, process_content,
  with_chunks, outcome_of, removal_of, reported, to_error, vector_record, zip,
}
use context_os_mcp.Search.Embed.Store.{
  Rows, IsStore, replace_rows, prune_rows, put_records, changed, select_chunks_lem,
  embed_chunks_lem,
}
use context_os_mcp.Search.Embed.Asked.{IsWatched, select_chunks-asked, embed_chunks-asked}
use context_os_mcp.Search.Embed.Replace.{IsOf, hashes, stored-replaces}

abbrev source_of : VaultPath → Text → ChunkSource
source_of path content = record { path = path; content = content }

module _ {W S V T : Type 0} (ports : EmbeddingPorts W S V T) (rows : W → Rows)
    (L : IsStore ports rows) (asked : W → List Chunk) (watched : IsWatched ports asked)
    (path : Text) where
  -- What a success of `update_rows` means.
  pub record IsUpdated (chunks : List Chunk) (count skipped : ℕ) (w w' : W) : Type 0 where
    pub replaced : rows w' ≡ replace_rows path (hashes chunks) (rows w)
    -- the embedder was given what the store had not, in order, and nothing else
    pub given : asked w' ≡ asked w ++ changed (rows w) chunks
    pub counted : count ≡ length (changed (rows w) chunks)
    pub all_counted : skipped + count ≡ length chunks

  update_rows-IsUpdated :
      (chunks : List Chunk) (w w' : W) {count skipped : ℕ}
      → IsOf path 0 chunks
      → update_rows ports path chunks w ≡ (ok (count, skipped), w')
      → IsUpdated chunks count skipped w w'
  unfolding update_rows ◌>>=◌
  update_rows-IsUpdated chunks w w' whole h =
      let ((to_embed, left), w1, at, more) = and_then-eq-ok (select_chunks ports chunks w) _ h in
      let (chosen, total, same) = select_chunks_lem ports rows L chunks w w1 at in
      let (_, w2, at_embed, last) = and_then-eq-ok (embed_chunks ports to_embed w1) _ more in
      let (vectors, fits, put) = embed_chunks_lem ports rows L to_embed w1 w2 at_embed in
      let (_, w3, at_prune, end) =
        and_then-eq-ok (ports.prune_ordinals_at_or_beyond path (length chunks) w2) _ last in
      let pruned = L.pruned path (length chunks) w2 w3 at_prune in
      let (out, still) = ok_pair end in
      record {
        replaced =
            sym (ap rows still)
            ∙ pruned
            ∙ ap (λ r. prune_rows r path (length chunks))
                (put ∙ ap₂ (λ r e. put_records r (map vector_record (zip e vectors))) same chosen)
            ∙ stored-replaces path (rows w) chunks vectors whole (fits ∙ ap length chosen);
        given =
            sym (ap asked still)
            ∙ sym (ap (λ p. asked p.1) at_prune)
            ∙ watched.prune path (length chunks) w2
            ∙ embed_chunks-asked ports asked watched to_embed w1 w2 at_embed
            ∙ ap₂ (λ a e. a ++ e) (select_chunks-asked ports asked watched chunks w w1 at) chosen;
        counted = sym (ap (λ p. p.0) out) ∙ ap length chosen;
        all_counted = omega (arith, total, ap (λ p. p.0) out, ap (λ p. p.1) out);
      }

  -- The text queued for a path is the one that the chunks carry: the relative path, with slashes.
  abbrev pub IsCanonical : Type 0
  IsCanonical =
      (w : W) (p : VaultPath)
      → Confine.try_from (ports.host w) ports.roots path ≡ ok p
      → relative_display p ≡ path

  to_error-eq-ok :
      (r : Result Fault VaultPath) {p : VaultPath} → to_error ports path r ≡ ok p → r ≡ ok p
  to_error-eq-ok (ok q) h = ap ok (ok-injective h)
  to_error-eq-ok (err (refused e)) h = cc
  to_error-eq-ok (err panicked) h = cc

  IsOf-chunks_at :
      (w : W) (content : Text) (p : Result (SearchError S) VaultPath) {chunks : List Chunk}
      → to_error ports path (Confine.try_from (ports.host w) ports.roots path) ≡ p
      → IsCanonical
      → chunks_at ports content p ≡ ok chunks
      → IsOf path 0 chunks
  IsOf-chunks_at w content (err e) at canonical h = cc
  IsOf-chunks_at w content (ok p) {chunks} at canonical h =
      let (made, is_made, numbered) = chunk_document-Numbered ports.sha256 (source_of p content) in
      let same = ok-injective {a = made} {b = chunks} (rw is_made at h) in
      record {
        of_path =
            subst (λ q. All (λ c. c.path ≡ q) chunks) (canonical w p (to_error-eq-ok _ at))
              (chunk_document-path ports.sha256 (source_of p content) (is_made ∙ ap some same));
        numbered = subst (Numbered 0) same numbered;
      }

  -- What an outcome of `process_path` says of the worlds before and after.
  abbrev pub IsRefined : PathEmbeddingOutcome → W → W → Type 0
  IsRefined (removed p) w w' =
      (w1 : W) × (ports.read path w ≡ (ok none, w1))
      × (rows w' ≡ replace_rows path [] (rows w))
      × (asked w' ≡ asked w)
  IsRefined (embedded p count skipped) w w' =
      (w1 : W) × (content : Text) × (chunks : List Chunk) × (ports.read path w
        ≡ (ok (some content), w1))
      × (chunks_of ports path content w1 ≡ ok chunks)
      × IsUpdated chunks count skipped w w'
  IsRefined (failed p warning) w w' = Unit

  removal-IsRefined :
      (w w1 : W) (r : Result (SearchError S) (Unit {0}) × W) {outcome : PathEmbeddingOutcome}
      {w' : W}
      → ports.read path w ≡ (ok none, w1)
      → ports.delete path w1 ≡ r
      → reported ports (removal_of ports path) r ≡ (outcome, w')
      → IsRefined outcome w w'
  removal-IsRefined w w1 (ok _, w2) read at h =
      subst₂ (λ o v. IsRefined o w v) (ap (λ p. p.0) h) (ap (λ p. p.1) h)
        (
          w1,
          read,
          L.deleted path w1 w2 at ∙ ap (replace_rows path []) (L.read_only _ _ _ _ read),
          sym (ap (λ p. asked p.1) at)
              ∙ watched.delete path w1
              ∙ sym (ap (λ p. asked p.1) read)
              ∙ watched.read path w,
        )
  removal-IsRefined w w1 (err e, w2) {w' = w'} read at h =
      subst (λ o. IsRefined o w w') (ap (λ p. p.0) h) tt

  embedding-IsRefined :
      (w w1 : W) (content : Text) (c : Result (SearchError S) (List Chunk))
      (r : Result (SearchError S) (ℕ × ℕ) × W) {outcome : PathEmbeddingOutcome} {w' : W}
      → IsCanonical
      → ports.read path w ≡ (ok (some content), w1)
      → chunks_of ports path content w1 ≡ c
      → with_chunks ports path c w1 ≡ r
      → reported ports (outcome_of ports path) r ≡ (outcome, w')
      → IsRefined outcome w w'
  unfolding chunks_of
  embedding-IsRefined w w1 content (ok chunks) (ok (count, skipped), w2) canonical read made at h =
      let before = L.read_only _ _ _ _ read in
      let whole = IsOf-chunks_at w1 content _ refl canonical made in
      let done = update_rows-IsUpdated chunks w1 w2 whole at in
      subst₂ (λ o v. IsRefined o w v) (ap (λ p. p.0) h) (ap (λ p. p.1) h)
        (
          w1,
          content,
          chunks,
          read,
          made,
          record {
            replaced = done.replaced ∙ ap (replace_rows path (hashes chunks)) before;
            given =
                done.given
                ∙ ap₂ (λ a r. a ++ changed r chunks)
                    (sym (ap (λ p. asked p.1) read) ∙ watched.read path w) before;
            counted = done.counted ∙ ap (λ r. length (changed r chunks)) before;
            all_counted = done.all_counted;
          },
        )
  embedding-IsRefined w w1 content (err e) (ok _, w2) canonical read made at h =
      absurd (cc (ap (λ p. p.0) at))
  embedding-IsRefined w w1 content c (err e, w2) {w' = w'} canonical read made at h =
      subst (λ o. IsRefined o w w') (ap (λ p. p.0) h) tt

  content-IsRefined :
      (w : W) (r : Result (SearchError S) (Option Text) × W) {outcome : PathEmbeddingOutcome}
      {w' : W}
      → IsCanonical
      → ports.read path w ≡ r
      → process_content ports path r ≡ (outcome, w')
      → IsRefined outcome w w'
  unfolding embed_path
  content-IsRefined w (ok none, w1) canonical read h = removal-IsRefined w w1 _ read refl h
  content-IsRefined w (ok (some content), w1) canonical read h =
      embedding-IsRefined w w1 content _ _ canonical read refl refl h
  content-IsRefined w (err e, w1) {w' = w'} canonical read h =
      subst (λ o. IsRefined o w w') (ap (λ p. p.0) h) tt

  -- If a path is queued as its chunks name it, the vector store behaves as documented, and the
  -- calls of the embedder are watched, then processing the path, unless it reports a failure,
  -- replaces the rows of that path and no others: by none when the file is gone, and then the
  -- embedder is not called; otherwise by the hashes of the chunks of the content read, in order,
  -- whatever rows were stored. Then the embedder is given the chunks whose stored hash is not theirs,
  -- in order, and no others, and each chunk counts once, as embedded or as skipped.
  pub process_path-IsRefined :
      (w : W) {outcome : PathEmbeddingOutcome} {w' : W}
      → IsCanonical
      → process_path ports path w ≡ (outcome, w')
      → IsRefined outcome w w'
  unfolding process_path
  process_path-IsRefined w canonical h = content-IsRefined w _ canonical refl h
