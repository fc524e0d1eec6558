-- ===== src/Chunk/Indexed/Trails.antt =====
-- The headings of the sections of a document, against the headings that are indexed.
use context_os_mcp.Prelude.{
  All, Bool, List, Text, [], inl, inr, list_eq, map, nat_eq, option_eq, ◌++◌, ◌∷◌, ◌≡◌, ◌⊎◌,
}
use context_os_mcp.Chunk.Headings.{headings_from}
use context_os_mcp.Chunk.Sections.{Section, Trail, text_of, flush_section, Parsing, read_lines}

-- The first list is left when entries of the second are dropped.
abbrev pub IsSublist : List Text → List Text → Type 0
IsSublist [] ys = Unit
IsSublist (x ∷ xs) [] = ⊥
IsSublist (x ∷ xs) (y ∷ ys) = ((x ≡ y) × IsSublist xs ys) ⊎ IsSublist (x ∷ xs) ys

sublist_rest : (x : Text) (xs ys : List Text) → IsSublist (x ∷ xs) ys → IsSublist xs ys
sublist_rest x [] ys h = tt
sublist_rest x (y ∷ xs) [] h = absurd h
sublist_rest x (y ∷ xs) (z ∷ ys) (inl (same, more)) = inr more
sublist_rest x (y ∷ xs) (z ∷ ys) (inr later) = inr (sublist_rest x (y ∷ xs) ys later)

abbrev titles : Trail → List Text
titles trail = map text_of trail

abbrev pub Follow : List Text → List Section → Type 0
Follow seen sections = All (λ (section : Section). IsSublist section.heading_context seen) sections

abbrev closed : Parsing → List Section
closed s = flush_section s.trail s.body s.sections

-- What holds of the lines that are left, from any state of the loop
abbrev Continues : List Text → Type 0
Continues rest =
    (trail : Trail) (body : Text) (inside : Bool) (sections : List Section) (seen : List Text)
    → IsSublist (titles trail) seen
    → Follow seen sections
    → Follow (seen ++ headings_from inside rest) (
        closed (
          read_lines rest
            (record { trail = trail; body = body; in_fence = inside; sections = sections })))
