-- ===== src/Index/Summary.antt =====
-- The suggested summary of a note (crates/contextos-index/src/lib.rs): `first_heading`,
-- `first_sentence`, `descriptive_summary` and `IndexSummary`. The parser of the frontmatter gives
-- the title and the body; it stands on a YAML library and is a parameter.
use context_os_mcp.Prelude.{
  Bool, List, Option, Result, Text, [], codes, err, if◌then◌else◌, is_empty, lines, list_eq, nat_eq,
  none, ok, some, starts_with, strip_prefix, trim, ℕ, ◌++◌, ◌==◌, ◌||◌, ◌∷◌,
}
use context_os_mcp.Index.Block.{strip_suffix, or_whole}
use context_os_mcp.Index.Document.{directory_title}

abbrev heading_text : Option Text → Option Text
heading_text none = none
heading_text (some heading) = if is_empty (trim heading) then none else some (trim heading)

abbrev or_next : Option Text → Option Text → Option Text
or_next (some heading) later = some heading
or_next none later = later

-- `first_heading`, on the lines
unfoldable pub heading_from : List Text → Option Text
heading_from [] = none
heading_from (line ∷ lines) =
    or_next (heading_text (strip_prefix (codes "#") (trim line))) (heading_from lines)

unfoldable pub first_heading : Text → Option Text
first_heading body = heading_from (lines body)

abbrev spaced : Text → Text → Text
spaced [] line = line
spaced (c ∷ cs) line = (c ∷ cs) ++ (codes " " ++ line)

-- The loop of `first_sentence`: the paragraph so far, and the lines.
unfoldable pub paragraph_from : Text → List Text → Text
paragraph_from paragraph [] = paragraph
paragraph_from paragraph (line ∷ lines) =
    let further = paragraph_from paragraph lines in
    let longer = paragraph_from (spaced paragraph (trim line)) lines in
    if is_empty (trim line)
    then if is_empty paragraph then further else paragraph
    else if starts_with (trim line) (codes "#")
    then further
    else longer

abbrev ends_sentence : ℕ → Bool
ends_sentence c = c == b'.' || c == b'!' || c == b'?'

abbrev sentence : Text → Text
sentence [] = []
sentence (c ∷ cs) = let rest = sentence cs in if ends_sentence c then c ∷ [] else c ∷ rest

abbrev sentence_of : Text → Option Text
sentence_of [] = none
sentence_of (c ∷ cs) = some (sentence (c ∷ cs))

-- `first_sentence`
unfoldable pub first_sentence : Text → Option Text
first_sentence body = sentence_of (paragraph_from [] (lines body))

-- `descriptive_summary`
unfoldable pub descriptive_summary : Option Text → Option Text → Option Text
descriptive_summary (some title) (some sentence) =
    if title == sentence then some title else some (title ++ (codes ": " ++ sentence))
descriptive_summary (some title) none = some title
descriptive_summary none (some sentence) = some sentence
descriptive_summary none none = none

abbrev shown_title : Option Text → Option Text
shown_title none = none
shown_title (some title) = if is_empty (trim title) then none else some (trim title)

module _ {F : Type 0} (frontmatter : Text → Result F (Option Text × Text))
    (to_uppercase : ℕ → Text) where
  abbrev by_name : Text → Text
  by_name filename =
      directory_title to_uppercase (or_whole filename (strip_suffix (codes ".md") filename))

  abbrev or_by_name : Text → Option Text → Text
  or_by_name filename (some summary) = summary
  or_by_name filename none = by_name filename

  abbrev summarised : Text → Result F (Option Text × Text) → Result F Text
  summarised filename (err e) = err e
  summarised filename (ok (title, body)) = ok (
      or_by_name filename (
        descriptive_summary (or_next (shown_title title) (first_heading body))
          (first_sentence body)))

  -- `IndexSummary::try_from`
  unfoldable pub index_summary : Text → Option Text → Result F Text
  index_summary filename none = ok (by_name filename)
  index_summary filename (some source) = summarised filename (frontmatter source)
