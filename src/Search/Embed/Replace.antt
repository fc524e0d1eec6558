-- ===== src/Search/Embed/Replace.antt =====
-- Storing the changed chunks of a path and pruning the ordinals behind them replaces its rows.
use context_os_mcp.Prelude.{
  All, Bool, Bool-cases, List, Option, Text, [], ap₂, arith, beq_refl, false, fun_ext, get_elem?,
  if◌then◌else◌, inl, inr, leb, leb→le, leb→lt, length, list_beq_iff, list_eq, map, nat_eq, none,
  option_beq_iff, option_eq, refl, some, suc, sym, true, zero, ℕ, ◌&&◌, ◌+◌, ◌<◌, ◌==◌, ◌∙◌, ◌∷◌,
  ◌≡◌, ◌≤◌,
}
use context_os_mcp.Hash.{ContentHash, hash_eq}
use context_os_mcp.Chunk.Document.{Chunk}
use context_os_mcp.Chunk.Document.Numbered.{Numbered}
use context_os_mcp.Search.Embed.{zip, vector_record}
use context_os_mcp.Search.Embed.Store.{
  Rows, put_row, put_records, prune_rows, replace_rows, changed,
}

abbrev pub hashes : List Chunk → List ContentHash
hashes = map (λ c. c.content_hash)

-- The chunks of a path, numbered from `n` on.
pub record IsOf (path : Text) (n : ℕ) (chunks : List Chunk) : Type 0 where
  pub of_path : All (λ c. c.path ≡ path) chunks
  pub numbered : Numbered n chunks

later : (same : Bool) (n o : ℕ) → (same && leb n o) ≡ false → (same && leb (n + 1) o) ≡ false
later same n o h = ground arith

apart : (same : Bool) (n o : ℕ) → (same && leb n o) ≡ false → (same && o == n) ≡ false
apart same n o h = ground arith

past : (same : Bool) (n o : ℕ) → n + 1 ≤ o → (same && o == n) ≡ false
past same n o h = ground arith

-- An entry of a list that has `hash` in front, by its position.
by_index :
    (i n o : ℕ) (hash : ContentHash) (rest : List ContentHash) (row : Option ContentHash)
    → o ≡ n + i
    → (o ≡ n → row ≡ some hash)
    → ((j : ℕ) → i ≡ suc j → row ≡ get_elem? rest j)
    → row ≡ get_elem? (hash ∷ rest) i
by_index zero n o hash rest row k first later = first (omega (arith, k))
by_index (suc j) n o hash rest row k first later = later j refl

hashes-past : (chunks : List Chunk) (o : ℕ) → length chunks ≤ o → get_elem? (hashes chunks) o ≡ none
hashes-past [] o h = refl
hashes-past (c ∷ chunks) zero h = absurd (omega (arith, h))
hashes-past (c ∷ chunks) (suc o) h = hashes-past chunks o (omega (arith, h))

module _ (path : Text) (old : Rows) where
  -- The rows after the changed ones among the chunks are stored over `base`.
  abbrev stored : {V : Type 0} → Rows → List Chunk → List V → Rows
  stored base chunks vectors =
      put_records base (map vector_record (zip (changed old chunks) vectors))

  put_row-other :
      (base : Rows) (n : ℕ) (hash : ContentHash) (q : Text) (o : ℕ)
      → (q == path && o == n) ≡ false
      → put_row base path n hash q o ≡ base q o
  put_row-other base n hash q o h = rw h refl

  -- What is stored leaves other paths alone, and ordinals below the first.
  stored-other :
      {V : Type 0} (n : ℕ) (chunks : List Chunk) (vectors : List V) (base : Rows) (q : Text) (o : ℕ)
      → All (λ c. c.path ≡ path) chunks
      → Numbered n chunks
      → (q == path && leb n o) ≡ false
      → stored base chunks vectors q o ≡ base q o
  stored-other n [] vectors base q o p m h = refl
  stored-other n (c ∷ chunks) [] base q o (p, ps) (m, ms) h =
      elim (Bool-cases (old c.path c.ordinal == some c.content_hash)) [
        | inl e ↦ rw e (stored-other (n + 1) chunks [] base q o ps ms (later (q == path) n o h))
        | inr e ↦ rw e refl
      ]
  stored-other n (c ∷ chunks) (v ∷ vs) base q o (p, ps) (m, ms) h =
      elim (Bool-cases (old c.path c.ordinal == some c.content_hash)) [
        | inl e ↦
            rw e (stored-other (n + 1) chunks (v ∷ vs) base q o ps ms (later (q == path) n o h))
        | inr e ↦ rw e (
            stored-other (n + 1) chunks vs _ q o ps ms (later (q == path) n o h)
            ∙ rw (p, m) (put_row-other base n c.content_hash q o (apart (q == path) n o h)))
      ]

  here_row :
      (base : Rows) (n : ℕ) (hash : ContentHash) → put_row base path n hash path n ≡ some hash
  here_row base n hash = rw (beq_refl path, beq_refl n) refl

  behind : (n : ℕ) → (path == path && leb (n + 1) n) ≡ false
  behind n = ground (arith, beq_refl path)

  first_unchanged :
      {V : Type 0} (n : ℕ) (c : Chunk) (chunks : List Chunk) (vectors : List V) (base : Rows)
      → All (λ d. d.path ≡ path) (c ∷ chunks)
      → Numbered n (c ∷ chunks)
      → base path n ≡ old path n
      → old c.path c.ordinal ≡ some c.content_hash
      → stored base chunks vectors path n ≡ some c.content_hash
  first_unchanged n c chunks vectors base (p, ps) (m, ms) b e =
      stored-other (n + 1) chunks vectors base path n ps ms (behind n) ∙ b ∙ sym (ap₂ old p m) ∙ e

  first_stored :
      {V : Type 0} (n : ℕ) (c : Chunk) (chunks : List Chunk) (vectors : List V) (base : Rows)
      → All (λ d. d.path ≡ path) (c ∷ chunks)
      → Numbered n (c ∷ chunks)
      → stored (put_row base c.path c.ordinal c.content_hash) chunks vectors path n
        ≡ some c.content_hash
  first_stored n c chunks vectors base (p, ps) (m, ms) =
      rw (p, m)
        (stored-other (n + 1) chunks vectors _ path n ps ms (behind n)
          ∙ here_row base n c.content_hash)

  -- Each chunk's hash is in the row of its ordinal: it was, or it is stored now.
  stored-hashes :
      {V : Type 0} (n i o : ℕ) (chunks : List Chunk) (vectors : List V) (base : Rows)
      → o ≡ n + i
      → All (λ d. d.path ≡ path) chunks
      → Numbered n chunks
      → ((m : ℕ) → n ≤ m → base path m ≡ old path m)
      → length vectors ≡ length (changed old chunks)
      → i < length chunks
      → stored base chunks vectors path o ≡ get_elem? (hashes chunks) i
  stored-hashes n i o [] vectors base k p m b l h = absurd (omega arith)
  stored-hashes n i o (c ∷ chunks) [] base k (p, ps) (m, ms) b l h =
      elim (Bool-cases (old c.path c.ordinal == some c.content_hash)) [
        | inl e ↦ rw e (
            by_index i n o c.content_hash (hashes chunks) _ k
              (λ same. rw same (
                first_unchanged n c chunks [] base (p, ps) (m, ms) (b n (omega arith))
                  ((option_beq_iff _ _).0 e)))
              (λ j s.
                stored-hashes (n + 1) j o chunks [] base (omega (arith, k, s)) ps ms
                  (λ x y. b x (omega (arith, y))) (rw e at l) (omega (arith, h, s))))
        | inr e ↦ absurd (cc (rw e at l))
      ]
  stored-hashes n i o (c ∷ chunks) (v ∷ vs) base k (p, ps) (m, ms) b l h =
      elim (Bool-cases (old c.path c.ordinal == some c.content_hash)) [
        | inl e ↦ rw e (
            by_index i n o c.content_hash (hashes chunks) _ k
              (λ same. rw same (
                first_unchanged n c chunks (v ∷ vs) base (p, ps) (m, ms) (b n (omega arith))
                  ((option_beq_iff _ _).0 e)))
              (λ j s.
                stored-hashes (n + 1) j o chunks (v ∷ vs) base (omega (arith, k, s)) ps ms
                  (λ x y. b x (omega (arith, y))) (rw e at l) (omega (arith, h, s))))
        | inr e ↦ rw e (
            by_index i n o c.content_hash (hashes chunks) _ k
              (λ same. rw same (first_stored n c chunks vs base (p, ps) (m, ms)))
              (λ j s.
                stored-hashes (n + 1) j o chunks vs _ (omega (arith, k, s)) ps ms
                  (λ x y.
                    rw (p, m)
                      (put_row-other base n c.content_hash path x (past (path == path) n x y))
                    ∙ b x (omega (arith, y)))
                  (omega (arith, rw e at l)) (omega (arith, h, s))))
      ]

  module _ {V : Type 0} (chunks : List Chunk) (vectors : List V) (whole : IsOf path 0 chunks)
      (fits : length vectors ≡ length (changed old chunks)) where
    rows_of_path :
        (o : ℕ) (gone : Bool)
        → leb (length chunks) o ≡ gone
        → (if gone then none else stored old chunks vectors path o) ≡ get_elem? (hashes chunks) o
    rows_of_path o true e = sym (hashes-past chunks o (leb→le _ _ e))
    rows_of_path o false e =
        stored-hashes 0 o o chunks vectors old (omega arith) whole.of_path whole.numbered
          (λ m _. refl) fits (leb→lt _ _ e)

    row_by_row :
        (q : Text) (o : ℕ) (same : Bool)
        → (q == path) ≡ same
        → (if same && leb (length chunks) o then none else stored old chunks vectors q o)
          ≡ (if same then get_elem? (hashes chunks) o else old q o)
    row_by_row q o true e =
        rw ((list_beq_iff q path).0 e) (rows_of_path o (leb (length chunks) o) refl)
    row_by_row q o false e =
        stored-other 0 chunks vectors old q o whole.of_path whole.numbered (rw e refl)

    -- Storing what changed, then pruning the ordinals that the document has no longer.
    pub stored-replaces :
        prune_rows (stored old chunks vectors) path (length chunks)
        ≡ replace_rows path (hashes chunks) old
    stored-replaces = fun_ext λ q. fun_ext λ o. row_by_row q o (q == path) refl
