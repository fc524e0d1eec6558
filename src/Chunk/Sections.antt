-- ===== src/Chunk/Sections.antt =====
-- The sections of a document (crates/contextos-search/src/chunk.rs): `parse_sections`.
pub mod Open
pub mod Ascends
pub mod Nested
use context_os_mcp.Prelude.{
  Bool, List, Option, Text, [], codes, false, if◌then◌else◌, is_empty, keep, lines, ltb, map, none,
  not, some, trim, trim_start, ℕ, ◌++◌, ◌∷◌,
}
use context_os_mcp.Tags.{is_fence}
use context_os_mcp.Chunk.Headings.{detect_atx_heading}

pub record Section : Type 0 where
  pub heading_context : List Text
  pub body : Text

abbrev pub Trail : Type 0
Trail = List (ℕ × Text)

abbrev pub text_of : ℕ × Text → Text
text_of entry = entry.1

-- `flush_section`, without the clearing of the body.
unfoldable pub flush_section : Trail → Text → List Section → List Section
flush_section trail body sections =
    if is_empty (trim body)
    then sections
    else sections ++ record { heading_context = map text_of trail; body = trim body } ∷ []

-- The variables of the loop.
pub record Parsing : Type 0 where
  pub trail : Trail
  pub body : Text
  pub in_fence : Bool
  pub sections : List Section

abbrev pub push_line : Text → Parsing → Parsing
push_line line s = record s { body = s.body ++ (line ++ codes "\n") }

-- A heading ends the section and takes its place in the trail.
abbrev pub open_section : ℕ × Text → Parsing → Parsing
open_section entry s = record {
  trail = keep (λ (e : ℕ × Text). ltb e.0 entry.0) s.trail ++ entry ∷ [];
  body = [];
  in_fence = s.in_fence;
  sections = flush_section s.trail s.body s.sections;
}

abbrev pub heading_or_line : Option (ℕ × Text) → Text → Parsing → Parsing
heading_or_line (some entry) line s = open_section entry s
heading_or_line none line s = push_line line s

-- One round of the loop.
unfoldable pub read_line : Text → Parsing → Parsing
read_line line s =
    if is_fence (trim_start line)
    then push_line line (record s { in_fence = not s.in_fence })
    else if s.in_fence
    then push_line line s
    else heading_or_line (detect_atx_heading (trim_start line)) line s

unfoldable pub read_lines : List Text → Parsing → Parsing
read_lines [] s = s
read_lines (line ∷ rest) s = read_lines rest (read_line line s)

-- `parse_sections`
unfoldable pub parse_sections : Text → List Section
unfolding read_lines
parse_sections content =
    let s =
      read_lines (lines content)
        (record { trail = []; body = []; in_fence = false; sections = [] }) in
    flush_section s.trail s.body s.sections
