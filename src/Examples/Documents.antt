-- ===== src/Examples/Documents.antt =====
-- Sections and chunks of a concrete document.
use context_os_mcp.Prelude.{
  lines, ℕ, is_ascii_alphanumeric, err, split_whitespace, map, All, List, Text, [], codes, refl,
  some, ◌∷◌, ◌≡◌,
}
use context_os_mcp.Chunk.Headings.{headings_from, detect_atx_heading, strip_closing_hashes}
use context_os_mcp.Chunk.Sections.{flush_section, read_line, read_lines, parse_sections}
use context_os_mcp.Chunk.Sections.Nested.{IsNested, parse_sections-IsNested}
use context_os_mcp.Chunk.Document.Words.{word_spans-split_whitespace}
use context_os_mcp.Chunk.Document.{Chunk, word_at, word_spans, ChunkSource, chunk_document}
use context_os_mcp.Chunk.Document.Numbered.{Numbered, chunk_document-Numbered}
use context_os_mcp.Vault.Root.{file_name}
use context_os_mcp.Vault.Confine.{split_once}
use context_os_mcp.Query.Value.{string, no_members, member}
use context_os_mcp.Chunk.Headings.{extract_headings}
use context_os_mcp.Chunk.Indexed.{indexed_document, derive_title, humanised_stem}
use context_os_mcp.Examples.Services.{todo}

abbrev document : Text
document = codes "intro\n# One\n## Two ##\ntwo words\n```\n# code\n```\n# Three\n"

sections_of_document :
    parse_sections document
    ≡ record { heading_context = []; body = codes "intro" }
      ∷ record {
        heading_context = codes "One" ∷ codes "Two" ∷ [];
        body = codes "two words\n```\n# code\n```";
      }
      ∷ []
unfolding parse_sections read_lines read_line flush_section detect_atx_heading strip_closing_hashes
sections_of_document = refl

parse_sections-IsNested_example : All (IsNested (lines document)) (parse_sections document)
parse_sections-IsNested_example = parse_sections-IsNested document

abbrev source : ChunkSource
source = record { path = todo; content = document }

chunk_document-Numbered_example :
    (chunks : List Chunk) × (chunk_document (λ bs. bs) source ≡ some chunks) × Numbered 0 chunks
chunk_document-Numbered_example = chunk_document-Numbered (λ bs. bs) source

word_spans-split_whitespace_example :
    map (word_at (codes "  deux\n mots é ")) (word_spans (codes "  deux\n mots é "))
    ≡ split_whitespace (codes "  deux\n mots é ")
word_spans-split_whitespace_example = word_spans-split_whitespace (codes "  deux\n mots é ")

-- A title of the frontmatter, a heading, or the name of the file
given_title :
    derive_title
      (member (codes "title") (string (codes " Plan ")) no_members)
      (codes "One" ∷ [])
      todo
    ≡ codes "Plan"
unfolding derive_title
given_title = refl

blank_title :
    derive_title (member (codes "title") (string (codes " ")) no_members) (codes "One" ∷ []) todo
    ≡ codes "One"
unfolding derive_title
blank_title = refl

named_title : derive_title no_members [] todo ≡ codes "todo"
unfolding derive_title humanised_stem file_name split_once
named_title = refl

-- A note without frontmatter
indexed_headings :
    (indexed_document {F = Unit {0}} {T = ℕ}
      (λ s. err tt)
      is_ascii_alphanumeric
      (λ bs. bs)
      (record { path = todo; content = document; modified = 3 })).headings
    ≡ codes "One" ∷ codes "Two" ∷ codes "Three" ∷ []
unfolding indexed_document extract_headings headings_from detect_atx_heading strip_closing_hashes
indexed_headings = refl
