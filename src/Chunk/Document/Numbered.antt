-- ===== src/Chunk/Document/Numbered.antt =====
-- Chunking a document never panics on an index or a subtraction, and numbers its chunks.
use context_os_mcp.Prelude.{
  get_elem?-some, ◌∙◌, sym, some-injective, All, List, Option, Text, [], ap, arith, length, map,
  refl, some, subst, suc, ℕ, ◌++◌, ◌+◌, ◌-◌, ◌∷◌, ◌≡◌,
}
use context_os_mcp.Chunk.Split.Plain.{plain_words}
use context_os_mcp.Chunk.Split.Ranges.{IsRange, plain_words-ranges}
use context_os_mcp.Chunk.Split.Total.{split_section_words-plain}
use context_os_mcp.Chunk.Sections.{Section, parse_sections}
use context_os_mcp.Chunk.Document.{
  Chunk, ChunkSource, relative_display, word_spans, word_at, slice, chunk_of, chunk_ranges,
  chunk_section, chunk_sections, chunk_document,
}

-- The ordinals count from a number on.
abbrev pub Numbered : ℕ → List Chunk → Type 0
Numbered n [] = Unit
Numbered n (c ∷ chunks) = (c.ordinal ≡ n) × Numbered (n + 1) chunks

Numbered-append :
    (n : ℕ) (a b : List Chunk) → Numbered n a → Numbered (n + length a) b → Numbered n (a ++ b)
Numbered-append n [] b p q = subst (λ k. Numbered k b) (omega arith) q
Numbered-append n (c ∷ a) b p q =
    (p.0, Numbered-append (n + 1) a b p.1 (subst (λ k. Numbered k b) (omega arith) q))

pub length-map : {A B : Type 0} (f : A → B) (xs : List A) → length (map f xs) ≡ length xs
length-map f [] = refl
length-map f (x ∷ xs) = ap suc (length-map f xs)

All-append : {A : Type 0} (P : A → Type 0) (a b : List A) → All P a → All P b → All P (a ++ b)
All-append P [] b p q = q
All-append P (x ∷ a) b p q = (p.0, All-append P a b p.1 q)

module _ (sha256 : List ℕ → List ℕ) (path : Text) where
  -- The chunks are made, and numbered from `n` on.
  record IsMade (n : ℕ) (out : Option (List Chunk)) : Type 0 where
    chunks : List Chunk
    is_made : out ≡ some chunks
    numbered : Numbered n chunks
    of_path : All (λ c. c.path ≡ path) chunks

  chunk_ranges-IsMade :
      (section : Section) (spans : List (ℕ × ℕ)) (n : ℕ) (ranges : List (ℕ × ℕ))
      → All (IsRange (length spans)) ranges
      → IsMade n (chunk_ranges sha256 path section spans n ranges)
  unfolding chunk_ranges
  chunk_ranges-IsMade section spans n [] r = record {
    chunks = [];
    is_made = refl;
    numbered = tt;
    of_path = tt;
  }
  chunk_ranges-IsMade section spans n ((start, end) ∷ ranges) ((s, e), r) =
      let (first, at_first) = get_elem?-some spans start (omega (arith, s, e)) in
      let (last, at_last) = get_elem?-some spans (end - 1) (omega (arith, s, e)) in
      let rest = chunk_ranges-IsMade section spans (n + 1) ranges r in
      record {
        chunks = chunk_of sha256 path section n (slice 0 first.0 last.1 section.body) ∷ rest.chunks;
        is_made = rw (at_first, at_last, rest.is_made) refl;
        numbered = (refl, rest.numbered);
        of_path = (refl, rest.of_path);
      }

  chunk_section-IsMade :
      (section : Section) (n : ℕ) → IsMade n (chunk_section sha256 path section n)
  chunk_section-IsMade section n =
      let spans = word_spans section.body in
      let words = map (word_at section.body) spans in
      let made = chunk_ranges-IsMade section spans n (plain_words words) (
        subst (λ k. All (IsRange k) (plain_words words)) (length-map (word_at section.body) spans)
          (plain_words-ranges words)) in
      record {
        chunks = made.chunks;
        is_made = rw (split_section_words-plain words) made.is_made;
        numbered = made.numbered;
        of_path = made.of_path;
      }

  chunk_sections-IsMade :
      (sections : List Section) (n : ℕ) → IsMade n (chunk_sections sha256 path sections n)
  unfolding chunk_sections
  chunk_sections-IsMade [] n = record { chunks = []; is_made = refl; numbered = tt; of_path = tt }
  chunk_sections-IsMade (section ∷ sections) n =
      let first = chunk_section-IsMade section n in
      let rest = chunk_sections-IsMade sections (n + length first.chunks) in
      record {
        chunks = first.chunks ++ rest.chunks;
        is_made = rw (first.is_made, rest.is_made) refl;
        numbered = Numbered-append n first.chunks rest.chunks first.numbered rest.numbered;
        of_path =
            All-append (λ c. c.path ≡ path) first.chunks rest.chunks first.of_path rest.of_path;
      }

-- Every document is chunked without an index out of bounds and without a subtraction below zero,
-- and the ordinals of its chunks count from zero over the whole document.
pub chunk_document-Numbered :
    (sha256 : List ℕ → List ℕ) (source : ChunkSource)
    → (chunks : List Chunk) × (chunk_document sha256 source ≡ some chunks) × Numbered 0 chunks
unfolding chunk_document
chunk_document-Numbered sha256 source =
    let done =
      chunk_sections-IsMade sha256 (relative_display source.path) (parse_sections source.content)
        0 in
    (done.chunks, done.is_made, done.numbered)

-- The chunks of a document carry the path of its source.
pub chunk_document-path :
    (sha256 : List ℕ → List ℕ) (source : ChunkSource) {chunks : List Chunk}
    → chunk_document sha256 source ≡ some chunks
    → All (λ c. c.path ≡ relative_display source.path) chunks
unfolding chunk_document
chunk_document-path sha256 source h =
    let done =
      chunk_sections-IsMade sha256 (relative_display source.path) (parse_sections source.content)
        0 in
    subst (All _) (some-injective _ _ (sym done.is_made ∙ h)) done.of_path
