-- ===== src/Chunk/Sections/Nested.antt =====
-- The heading trail of every section.
use context_os_mcp.Prelude.{
  append-nil, codes, append_assoc, ap, subst, sym, ◌∙◌, All, Bool, Bool-cases, List, Option, Text,
  [], false, if◌then◌else◌, inl, inr, is_empty, keep, lines, ltb, map, none, not, refl, some, trim,
  trim_start, true, ℕ, ◌++◌, ◌∷◌, ◌≡◌,
}
use context_os_mcp.Tags.{is_fence}
use context_os_mcp.Chunk.Headings.{detect_atx_heading}
use context_os_mcp.Chunk.Sections.{
  Section, Trail, text_of, flush_section, Parsing, push_line, heading_or_line, read_line,
  read_lines, parse_sections,
}
use context_os_mcp.Chunk.Sections.Open.{
  open_headings, entry_of, headings_in, fence_in, read_headings, joined, open_headings-last,
  headings_in-last, fence_in-last, joined-last,
}
use context_os_mcp.Chunk.Sections.Ascends.{Ascends, Ascends-opened, detect_atx_heading-level}

-- A section of a text in lines: its body is what its own lines hold, among them is no heading, and
-- its context is that of the headings which are open where they begin.
pub record IsNested (text : List Text) (section : Section) : Type 0 where
  pub before : List Text
  pub own : List Text
  pub behind : List Text
  pub place : text ≡ (before ++ own) ++ behind
  pub body : section.body ≡ trim (joined own)
  pub no_heading : headings_in false (before ++ own) ≡ headings_in false before
  pub context : section.heading_context ≡ map text_of (open_headings (headings_in false before))
  pub ascends : Ascends 0 (open_headings (headings_in false before))
  pub prose : is_empty section.body ≡ false

abbrev closed : Parsing → List Section
closed s = flush_section s.trail s.body s.sections

module _ (text : List Text) where
  -- The loop's variables, in front of the lines that are left.
  record IsParsing (rest : List Text) (trail : Trail) (body : Text) (inside : Bool)
      (sections : List Section) : Type 0 where
    before : List Text
    own : List Text
    place : text ≡ (before ++ own) ++ rest
    same_body : body ≡ joined own
    same_fence : fence_in false (before ++ own) ≡ inside
    no_heading : headings_in false (before ++ own) ≡ headings_in false before
    is_open : trail ≡ open_headings (headings_in false before)
    ascends : Ascends 0 trail
    nested : All (IsNested text) sections

  All-append :
      (sections : List Section) (s : Section)
      → All (IsNested text) sections
      → IsNested text s
      → All (IsNested text) (sections ++ s ∷ [])
  All-append [] s a n = (n, tt)
  All-append (x ∷ sections) s a n = (a.0, All-append sections s a.1 n)

  flush_section-IsNested :
      (rest : List Text) (trail : Trail) (inside : Bool) (body : Text) (sections : List Section)
      → IsParsing rest trail body inside sections
      → All (IsNested text) (flush_section trail body sections)
  unfolding flush_section
  flush_section-IsNested rest trail inside body sections v =
      elim (Bool-cases (is_empty (trim body))) [
        | inl bare ↦ rw bare v.nested
        | inr prose ↦ rw prose (
            All-append sections _ v.nested (record {
              before = v.before;
              own = v.own;
              behind = rest;
              place = v.place;
              body = ap trim v.same_body;
              no_heading = v.no_heading;
              context = ap (map text_of) v.is_open;
              ascends = subst (Ascends 0) v.is_open v.ascends;
              prose = prose;
            }))
      ]

  -- A line that is no heading goes to the body.
  pushed :
      (line : Text) (rest : List Text) (trail : Trail) (body : Text) (inside after : Bool)
      (sections : List Section) (v : IsParsing (line ∷ rest) trail body inside sections)
      → headings_in false ((v.before ++ v.own) ++ line ∷ [])
        ≡ headings_in false (v.before ++ v.own) ++ []
      → fence_in false ((v.before ++ v.own) ++ line ∷ []) ≡ after
      → IsParsing rest trail (body ++ (line ++ codes "\n")) after sections
  pushed line rest trail body inside after sections v heads fence =
      let same = append_assoc v.before v.own (line ∷ []) in
      record {
        before = v.before;
        own = v.own ++ line ∷ [];
        place =
            v.place
            ∙ sym (append_assoc (v.before ++ v.own) (line ∷ []) rest)
            ∙ ap (λ l. l ++ rest) same;
        same_body = ap (λ b. b ++ (line ++ codes "\n")) v.same_body ∙ sym (joined-last v.own line);
        same_fence = ap (fence_in false) (sym same) ∙ fence;
        no_heading =
            ap (headings_in false) (sym same)
            ∙ heads
            ∙ append-nil (headings_in false (v.before ++ v.own))
            ∙ v.no_heading;
        is_open = v.is_open;
        ascends = v.ascends;
        nested = v.nested;
      }

  -- What holds of the lines that are left, from any state of the loop
  abbrev Continues : List Text → Type 0
  Continues rest =
      (trail : Trail) (body : Text) (inside : Bool) (sections : List Section)
      → IsParsing rest trail body inside sections
      → All (IsNested text) (
          closed (
            read_lines rest
              (record { trail = trail; body = body; in_fence = inside; sections = sections })))

  titled-IsNested :
      (line : Text) (rest : List Text) (found : Option (ℕ × Text)) (trail : Trail) (body : Text)
      (sections : List Section)
      → Continues rest
      → detect_atx_heading (trim_start line) ≡ found
      → (v : IsParsing (line ∷ rest) trail body false sections)
      → headings_in false ((v.before ++ v.own) ++ line ∷ [])
        ≡ headings_in false (v.before ++ v.own) ++ entry_of found
      → fence_in false ((v.before ++ v.own) ++ line ∷ []) ≡ false
      → All (IsNested text) (
          closed (
            read_lines rest (
              heading_or_line found line
                (record { trail = trail; body = body; in_fence = false; sections = sections }))))
  titled-IsNested line rest none trail body sections ih at v heads fence =
      ih trail (body ++ (line ++ codes "\n")) false sections
        (pushed line rest trail body false false sections v heads fence)
  titled-IsNested line rest (some (level, title)) trail body sections ih at v heads fence =
      let (low, high, some_title) =
        detect_atx_heading-level (trim_start line) {level = level} {title = title} at in
      let read = (v.before ++ v.own) ++ line ∷ [] in
      ih (keep (λ (e : ℕ × Text). ltb e.0 level) trail ++ (level, title) ∷ []) [] false
        (flush_section trail body sections)
        (record {
          before = read;
          own = [];
          place =
              v.place
              ∙ sym (append_assoc (v.before ++ v.own) (line ∷ []) rest)
              ∙ ap (λ l. l ++ rest) (sym (append-nil read));
          same_body = refl;
          same_fence = ap (fence_in false) (append-nil read) ∙ fence;
          no_heading = ap (headings_in false) (append-nil read);
          is_open =
              ap (λ t. keep (λ (e : ℕ × Text). ltb e.0 level) t ++ (level, title) ∷ [])
                (v.is_open ∙ ap open_headings (sym v.no_heading))
              ∙ sym (open_headings-last (headings_in false (v.before ++ v.own)) (level, title))
              ∙ ap open_headings (sym heads);
          ascends = Ascends-opened 0 level title trail low high some_title v.ascends;
          nested = flush_section-IsNested (line ∷ rest) trail false body sections v;
        })

  line-Continues : (line : Text) (rest : List Text) → Continues rest → Continues (line ∷ rest)
  unfolding read_lines read_line
  line-Continues line rest ih trail body inside sections v =
      by_case (is_fence (trim_start line)) inside v
        (headings_in-last false (v.before ++ v.own) line
          ∙ ap
              (λ b.
                headings_in false (v.before ++ v.own)
                ++ read_headings (is_fence (trim_start line)) b
                    (detect_atx_heading (trim_start line)))
              v.same_fence)
        (fence_in-last false (v.before ++ v.own) line
          ∙ ap (λ b. if is_fence (trim_start line) then not b else b) v.same_fence)
    where
      by_case :
          (fence fenced : Bool) (v : IsParsing (line ∷ rest) trail body fenced sections)
          → headings_in false ((v.before ++ v.own) ++ line ∷ [])
            ≡ headings_in false (v.before ++ v.own)
              ++ read_headings fence fenced (detect_atx_heading (trim_start line))
          → fence_in false ((v.before ++ v.own) ++ line ∷ [])
            ≡ (if fence then not fenced else fenced)
          → All (IsNested text) (
              closed (
                read_lines rest (
                  if fence
                  then push_line line (record {
                    trail = trail;
                    body = body;
                    in_fence = not fenced;
                    sections = sections;
                  })
                  else if fenced
                  then push_line line (record {
                    trail = trail;
                    body = body;
                    in_fence = fenced;
                    sections = sections;
                  })
                  else heading_or_line (detect_atx_heading (trim_start line)) line (record {
                    trail = trail;
                    body = body;
                    in_fence = fenced;
                    sections = sections;
                  }))))
      by_case true fenced v heads flips =
          ih trail (body ++ (line ++ codes "\n")) (not fenced) sections
            (pushed line rest trail body fenced (not fenced) sections v heads flips)
      by_case false true v heads flips =
          ih trail (body ++ (line ++ codes "\n")) true sections
            (pushed line rest trail body true true sections v heads flips)
      by_case false false v heads flips =
          titled-IsNested line rest (detect_atx_heading (trim_start line)) trail body sections ih
            refl v heads flips

  lines-Continue : (rest : List Text) → Continues rest
  unfolding read_lines
  lines-Continue [] =
      λ trail body inside sections v. flush_section-IsNested [] trail inside body sections v
  lines-Continue (line ∷ rest) = line-Continues line rest (lines-Continue rest)

-- Every section has prose, which is what some lines of the text hold, trimmed; no line of them is a
-- heading, and the section's context is that of the headings which are open where they begin: of the
-- headings outside fences before them, those that no later one of the same level or of a level above
-- it closes. Their levels ascend from the outermost to the innermost, from one to six, and each has a
-- title.
pub parse_sections-IsNested :
    (content : Text) → All (IsNested (lines content)) (parse_sections content)
unfolding parse_sections headings_in fence_in
parse_sections-IsNested content =
    lines-Continue (lines content) (lines content) [] [] false [] (record {
      before = [];
      own = [];
      place = refl;
      same_body = refl;
      same_fence = refl;
      no_heading = refl;
      is_open = refl;
      ascends = tt;
      nested = tt;
    })
