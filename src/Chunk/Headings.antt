-- ===== src/Chunk/Headings.antt =====
-- ATX headings (crates/contextos-search/src/document.rs).
use context_os_mcp.Prelude.{
  Bool, List, Option, Text, [], bytes, drop, false, if◌then◌else◌, leb, length, lines, nat_eq, none,
  not, reverse, some, take_while, trim, trim_end, trim_end_matches, trim_start, ℕ, ◌&&◌, ◌++◌, ◌==◌,
  ◌||◌, ◌∷◌,
}
use context_os_mcp.Tags.{is_fence}

abbrev pub is_hash : ℕ → Bool
is_hash c = c == b'#'

abbrev pub is_blank : ℕ → Bool
is_blank c = c == b' ' || c == b'\t'

abbrev pub starts_blank : Text → Bool
starts_blank [] = false
starts_blank (c ∷ _) = is_blank c

-- `strip_closing_hashes`
unfoldable pub strip_closing_hashes : Text → Text
strip_closing_hashes text =
    let without_hashes = trim_end_matches is_hash text in
    if length (bytes without_hashes) == length (bytes text)
      || not (starts_blank (reverse without_hashes))
    then text
    else trim_end without_hashes

abbrev pub heading : ℕ → Text → Option (ℕ × Text)
heading hashes [] = none
heading hashes (c ∷ text) = some (hashes, c ∷ text)

-- `detect_atx_heading`
unfoldable pub detect_atx_heading : Text → Option (ℕ × Text)
detect_atx_heading trimmed =
    let hashes = length (take_while is_hash trimmed) in
    let text = drop hashes trimmed in
    if not (leb 1 hashes && leb hashes 6)
    then none
    else if not (starts_blank text)
    then none
    else heading hashes (strip_closing_hashes (trim text))

abbrev pub texts_of : Option (ℕ × Text) → List Text
texts_of none = []
texts_of (some (_, text)) = text ∷ []

-- The loop of `extract_headings`.
unfoldable pub headings_from : Bool → List Text → List Text
headings_from in_fence [] = []
headings_from in_fence (line ∷ rest) =
    if is_fence (trim_start line)
    then headings_from (not in_fence) rest
    else (if in_fence then [] else texts_of (detect_atx_heading (trim_start line)))
      ++ headings_from in_fence rest

-- `extract_headings`
unfoldable pub extract_headings : Text → List Text
extract_headings body = headings_from false (lines body)
