-- ===== src/Search/Embed/Store.antt =====
-- What `update_rows` leaves in the vector store: the rows of the path become those of its chunks.
use context_os_mcp.Prelude.{
  Bool-cases, List, Option, Text, [], ap, arith, get_elem?, if◌then◌else◌, inl, inr, keep, leb,
  length, list_eq, map, nat_beq_iff, nat_eq, none, not, ok, option_eq, refl, some, suc, sym, ℕ,
  ◌&&◌, ◌+◌, ◌==◌, ◌∙◌, ◌∷◌, ◌≡◌,
}
use context_os_mcp.Exec.{◌>>=◌, and_then-eq-ok, ok_pair}
use context_os_mcp.Hash.{ContentHash, hash_eq}
use context_os_mcp.Chunk.Document.{Chunk}
use context_os_mcp.Search.Embed.{
  VectorRecord, EmbeddingPorts, zip, vector_record, sort_chunk, select_chunks, embed_chunks,
  store_vectors,
}

-- The abstract store: the hash stored for a path and an ordinal.
abbrev pub Rows : Type 0
Rows = Text → ℕ → Option ContentHash

-- One row inserted or replaced.
abbrev pub put_row : Rows → Text → ℕ → ContentHash → Rows
put_row rows path ordinal hash p o = if p == path && o == ordinal then some hash else rows p o

abbrev pub put_records : {V : Type 0} → Rows → List (VectorRecord V) → Rows
put_records rows [] = rows
put_records rows (r ∷ records) = put_records (put_row rows r.path r.ordinal r.content_hash) records

abbrev pub prune_rows : Rows → Text → ℕ → Rows
prune_rows rows path n p o = if p == path && leb n o then none else rows p o

-- The rows of one path replaced by a list of hashes, at ordinals from zero.
abbrev pub replace_rows : Text → List ContentHash → Rows → Rows
replace_rows path hashes rows p o = if p == path then get_elem? hashes o else rows p o

-- The documented behaviour of a vector store, and that the embedder and the content source leave it
-- alone: `rows` reads the store in a world.
pub record IsStore {W S V T : Type 0} (ports : EmbeddingPorts W S V T) (rows : W → Rows)
    : Type 0 where
  pub existing :
      (p : Text) (o : ℕ) (w w' : W) (found : Option ContentHash)
      → ports.existing_hash p o w ≡ (ok found, w')
      → (found ≡ rows w p o) × (rows w' ≡ rows w)
  pub upserted :
      (records : List (VectorRecord V)) (w w' : W)
      → ports.upsert records w ≡ (ok tt, w')
      → rows w' ≡ put_records (rows w) records
  pub deleted :
      (p : Text) (w w' : W) → ports.delete p w ≡ (ok tt, w') → rows w' ≡ replace_rows p [] (rows w)
  pub pruned :
      (p : Text) (n : ℕ) (w w' : W)
      → ports.prune_ordinals_at_or_beyond p n w ≡ (ok tt, w')
      → rows w' ≡ prune_rows (rows w) p n
  pub embedded_only :
      (chunks : List Chunk) (w w' : W) (vectors : List V)
      → ports.embed chunks w ≡ (ok vectors, w')
      → rows w' ≡ rows w
  pub read_only :
      (p : Text) (w w' : W) (content : Option Text)
      → ports.read p w ≡ (ok content, w')
      → rows w' ≡ rows w

-- The chunks whose stored hash is not theirs.
abbrev pub changed : Rows → List Chunk → List Chunk
changed rows = keep (λ c. not (rows c.path c.ordinal == some c.content_hash))

sort_chunk_lem :
    (old : Rows) (c : Chunk) (chunks rest : List Chunk) (more : ℕ)
    → rest ≡ changed old chunks
    → more + length rest ≡ length chunks
    → ((sort_chunk (old c.path c.ordinal) c (rest, more)).0 ≡ changed old (c ∷ chunks))
      × ((sort_chunk (old c.path c.ordinal) c (rest, more)).1
            + length (sort_chunk (old c.path c.ordinal) c (rest, more)).0
          ≡ suc (length chunks))
sort_chunk_lem old c chunks rest more h k =
    elim (Bool-cases (old c.path c.ordinal == some c.content_hash)) [
      | inl e ↦ rw (e, h) (refl, omega (arith, k, ap length h))
      | inr e ↦ rw (e, h) (refl, omega (arith, k, ap length h))
    ]

module _ {W S V T : Type 0} (ports : EmbeddingPorts W S V T) (rows : W → Rows)
    (L : IsStore ports rows) where
  pub select_chunks_lem :
      (chunks : List Chunk) (w w' : W) {to_embed : List Chunk} {skipped : ℕ}
      → select_chunks ports chunks w ≡ (ok (to_embed, skipped), w')
      → (to_embed ≡ changed (rows w) chunks)
        × (skipped + length to_embed ≡ length chunks)
        × (rows w' ≡ rows w)
  unfolding select_chunks ◌>>=◌
  select_chunks_lem [] w w' h =
      let (same, still) = ok_pair h in
      (
        sym (ap (λ p. p.0) same),
        omega (arith, ap (λ p. p.1) same, ap (λ p. length p.0) same),
        sym (ap rows still),
      )
  select_chunks_lem (c ∷ chunks) w w' h =
      let (found, w1, at, after) = and_then-eq-ok (ports.existing_hash c.path c.ordinal w) _ h in
      let (rest, w2, at_rest, last) = and_then-eq-ok (select_chunks ports chunks w1) _ after in
      let (hash, same) = L.existing _ _ _ _ found at in
      let (kept, counted, still) = select_chunks_lem chunks w1 w2 at_rest in
      let (out, end) = ok_pair last in
      let out' = sym out ∙ ap (λ f. sort_chunk f c rest) hash in
      let (these, total) =
        sort_chunk_lem (rows w) c chunks rest.0 rest.1 (kept ∙ ap (λ old. changed old chunks) same)
          counted in
      (
        ap (λ p. p.0) out' ∙ these,
        ap (λ p. p.1 + length p.0) out' ∙ total,
        sym (ap rows end) ∙ still ∙ same,
      )

  store_vectors_lem :
      (chunks : List Chunk) (vectors : List V) (w w' : W)
      → store_vectors ports chunks vectors w ≡ (ok tt, w')
      → (length vectors ≡ length chunks)
        × (rows w' ≡ put_records (rows w) (map vector_record (zip chunks vectors)))
  store_vectors_lem chunks vectors w w' h = elim (Bool-cases (length vectors == length chunks)) [
    | inl e ↦ ((nat_beq_iff (length vectors) (length chunks)).0 e, L.upserted _ w w' (rw e at h))
    | inr e ↦ absurd (cc (ap (λ p. p.0) (rw e at h)))
  ]

  pub embed_chunks_lem :
      (chunks : List Chunk) (w w' : W)
      → embed_chunks ports chunks w ≡ (ok tt, w')
      → (vectors : List V) × (length vectors ≡ length chunks)
        × (rows w' ≡ put_records (rows w) (map vector_record (zip chunks vectors)))
  unfolding embed_chunks ◌>>=◌
  embed_chunks_lem [] w w' h = ([], refl, sym (ap rows (ok_pair h).1))
  embed_chunks_lem (c ∷ chunks) w w' h =
      let (vectors, w1, at, stored) = and_then-eq-ok (ports.embed (c ∷ chunks) w) _ h in
      let (fits, put) = store_vectors_lem (c ∷ chunks) vectors w1 w' stored in
      (
        vectors,
        fits,
        put
            ∙ ap (λ old. put_records old (map vector_record (zip (c ∷ chunks) vectors)))
                (L.embedded_only _ _ _ _ at),
      )
