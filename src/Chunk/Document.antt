-- ===== src/Chunk/Document.antt =====
-- The chunks of a document (crates/contextos-search/src/chunk.rs): `word_spans`, `chunk_document`.
-- The offsets are those of characters, so a slice never cuts one. `sha256` is the sha2 crate's.
pub mod Numbered
pub mod Words
use context_os_mcp.Prelude.{
  List, Option, Text, [], bytes, encode_utf8, get_elem?, if◌then◌else◌, is_whitespace, leb, length,
  ltb, map, none, some, ℕ, ◌&&◌, ◌++◌, ◌+◌, ◌-◌, ◌∷◌,
}
use context_os_mcp.Hash.{ContentHash, from_bytes}
use context_os_mcp.Operation.{forward_slash_display}
use context_os_mcp.Vault.Confine.{VaultPath}
use context_os_mcp.Chunk.Split.{split_section_words}
use context_os_mcp.Chunk.Sections.{Section, parse_sections}

pub record Chunk : Type 0 where
  pub path : Text
  pub ordinal : ℕ
  pub heading_context : List Text
  pub text : Text
  pub content_hash : ContentHash

pub record ChunkSource : Type 0 where
  pub path : VaultPath
  pub content : Text

-- `relative_display`
unfoldable pub relative_display : VaultPath → Text
relative_display path = forward_slash_display path.relative

abbrev pub close_word : Option ℕ → ℕ → List (ℕ × ℕ) → List (ℕ × ℕ)
close_word none index spans = spans
close_word (some start) index spans = (start, index) ∷ spans

abbrev pub open_word : Option ℕ → ℕ → Option ℕ
open_word none index = some index
open_word (some start) index = some start

-- The loop of `word_spans`, at a byte offset and with the start of the word that is open.
unfoldable pub spans_from : ℕ → Option ℕ → Text → List (ℕ × ℕ)
spans_from index start [] = close_word start index []
spans_from index start (c ∷ cs) =
    let next = index + length (encode_utf8 c) in
    if is_whitespace c
    then close_word start index (spans_from next none cs)
    else spans_from next (open_word start index) cs

-- `word_spans`
unfoldable pub word_spans : Text → List (ℕ × ℕ)
word_spans body = spans_from 0 none body

-- `&body[from..to]`, by the byte offsets of the characters.
unfoldable pub slice : ℕ → ℕ → ℕ → Text → Text
slice index from to [] = []
slice index from to (c ∷ cs) =
    let rest = slice (index + length (encode_utf8 c)) from to cs in
    if leb from index && ltb index to then c ∷ rest else rest

abbrev pub word_at : Text → ℕ × ℕ → Text
word_at body span = slice 0 span.0 span.1 body

-- Nothing stands for the panic of an index out of bounds, here and in `split_section_words`.
abbrev pub with_more : Chunk → Option (List Chunk) → Option (List Chunk)
with_more chunk none = none
with_more chunk (some more) = some (chunk ∷ more)

abbrev pub followed : List Chunk → Option (List Chunk) → Option (List Chunk)
followed chunks none = none
followed chunks (some more) = some (chunks ++ more)

module _ (sha256 : List ℕ → List ℕ) (path : Text) where
  abbrev pub chunk_of : Section → ℕ → Text → Chunk
  chunk_of section ordinal text = record {
    path = path;
    ordinal = ordinal;
    heading_context = section.heading_context;
    text = text;
    content_hash = from_bytes (sha256 (bytes text));
  }

  abbrev pub chunk_at : Section → ℕ → Option (ℕ × ℕ) → Option (ℕ × ℕ) → Option Chunk
  chunk_at section ordinal (some first) (some last) =
      some (chunk_of section ordinal (slice 0 first.0 last.1 section.body))
  chunk_at section ordinal _ _ = none

  abbrev pub made : Option Chunk → Option (List Chunk) → Option (List Chunk)
  made none more = none
  made (some chunk) more = with_more chunk more

  -- The inner loop, over the ranges of a section.
  unfoldable pub chunk_ranges : Section → List (ℕ × ℕ) → ℕ → List (ℕ × ℕ) → Option (List Chunk)
  chunk_ranges section spans ordinal [] = some []
  chunk_ranges section spans ordinal ((start, end) ∷ ranges) =
      made (chunk_at section ordinal (get_elem? spans start) (get_elem? spans (end - 1)))
        (chunk_ranges section spans (ordinal + 1) ranges)

  abbrev pub over_ranges :
      Option (List (ℕ × ℕ)) → (List (ℕ × ℕ) → Option (List Chunk)) → Option (List Chunk)
  over_ranges none chunks = none
  over_ranges (some ranges) chunks = chunks ranges

  abbrev pub chunk_section : Section → ℕ → Option (List Chunk)
  chunk_section section ordinal =
      over_ranges (split_section_words (map (word_at section.body) (word_spans section.body)))
        (λ ranges. chunk_ranges section (word_spans section.body) ordinal ranges)

  abbrev pub then_rest : Option (List Chunk) → ℕ → (ℕ → Option (List Chunk)) → Option (List Chunk)
  then_rest none ordinal rest = none
  then_rest (some chunks) ordinal rest = followed chunks (rest (ordinal + length chunks))

  -- The outer loop.
  unfoldable pub chunk_sections : List Section → ℕ → Option (List Chunk)
  chunk_sections [] ordinal = some []
  chunk_sections (section ∷ sections) ordinal =
      then_rest (chunk_section section ordinal) ordinal (λ next. chunk_sections sections next)

-- `chunk_document`
unfoldable pub chunk_document : (List ℕ → List ℕ) → ChunkSource → Option (List Chunk)
unfolding relative_display
chunk_document sha256 source =
    chunk_sections sha256 (relative_display source.path) (parse_sections source.content) 0
