-- ===== src/Search/Embed/Asked.antt =====
-- What the embedder is given while a path is brought up to date.
use context_os_mcp.Prelude.{
  refl, List, Text, [], append-nil, ok, sym, ℕ, ap, ◌++◌, ◌∙◌, ◌∷◌, ◌≡◌, Bool-cases, inl, inr,
  length, nat_eq, ◌==◌,
}
use context_os_mcp.Exec.{◌>>=◌, and_then-eq-ok, ok_pair}
use context_os_mcp.Chunk.Document.{Chunk}
use context_os_mcp.Search.Embed.{
  VectorRecord, EmbeddingPorts, select_chunks, embed_chunks, store_vectors,
}

-- `asked` reads in a world the chunks that the embedder was given so far: a call of the embedder adds
-- its own, and no other call does.
pub record IsWatched {W S V T : Type 0} (ports : EmbeddingPorts W S V T) (asked : W → List Chunk)
    : Type 0 where
  pub asks : (chunks : List Chunk) (w : W) → asked (ports.embed chunks w).1 ≡ asked w ++ chunks
  pub read : (p : Text) (w : W) → asked (ports.read p w).1 ≡ asked w
  pub upsert :
      (records : List (VectorRecord V)) (w : W) → asked (ports.upsert records w).1 ≡ asked w
  pub delete : (p : Text) (w : W) → asked (ports.delete p w).1 ≡ asked w
  pub existing_hash : (p : Text) (o : ℕ) (w : W) → asked (ports.existing_hash p o w).1 ≡ asked w
  pub prune :
      (p : Text) (n : ℕ) (w : W) → asked (ports.prune_ordinals_at_or_beyond p n w).1 ≡ asked w

module _ {W S V T : Type 0} (ports : EmbeddingPorts W S V T) (asked : W → List Chunk)
    (L : IsWatched ports asked) where
  pub select_chunks-asked :
      (chunks : List Chunk) (w w' : W) {found : List Chunk × ℕ}
      → select_chunks ports chunks w ≡ (ok found, w')
      → asked w' ≡ asked w
  unfolding select_chunks ◌>>=◌
  select_chunks-asked [] w w' h = sym (ap asked (ok_pair h).1)
  select_chunks-asked (c ∷ chunks) w w' h =
      let (found, w1, at, after) = and_then-eq-ok (ports.existing_hash c.path c.ordinal w) _ h in
      let (rest, w2, at_rest, last) = and_then-eq-ok (select_chunks ports chunks w1) _ after in
      sym (ap asked (ok_pair last).1)
      ∙ select_chunks-asked chunks w1 w2 at_rest
      ∙ sym (ap (λ p. asked p.1) at)
      ∙ L.existing_hash c.path c.ordinal w

  store_vectors-asked :
      (chunks : List Chunk) (vectors : List V) (w : W)
      → asked (store_vectors ports chunks vectors w).1 ≡ asked w
  store_vectors-asked chunks vectors w = elim (Bool-cases (length vectors == length chunks)) [
    | inl e ↦ rw e (L.upsert _ w)
    | inr e ↦ rw e refl
  ]

  -- A branch with nothing to embed does not call the embedder.
  pub embed_chunks-asked :
      (chunks : List Chunk) (w w' : W)
      → embed_chunks ports chunks w ≡ (ok tt, w')
      → asked w' ≡ asked w ++ chunks
  unfolding embed_chunks ◌>>=◌
  embed_chunks-asked [] w w' h = sym (ap asked (ok_pair h).1) ∙ sym (append-nil (asked w))
  embed_chunks-asked (c ∷ chunks) w w' h =
      let (vectors, w1, at, stored) = and_then-eq-ok (ports.embed (c ∷ chunks) w) _ h in
      sym (ap (λ p. asked p.1) stored)
      ∙ store_vectors-asked (c ∷ chunks) vectors w1
      ∙ sym (ap (λ p. asked p.1) at)
      ∙ L.asks (c ∷ chunks) w
