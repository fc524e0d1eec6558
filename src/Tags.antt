-- ===== src/Tags.antt =====
-- Tags of a note (crates/contextos-core/src/tags.rs). `is_alphanumeric` is the property of
-- Unicode of that name.
pub mod Valid
use context_os_mcp.Prelude.{
  Bool, List, Option, Text, [], all, any, codes, contains, false, if◌then◌else◌, is_ascii_digit,
  is_empty, is_whitespace, lines, list_eq, nat_eq, none, not, some, starts_with, take_while, trim,
  trim_start, trim_start_matches, true, ℕ, ◌&&◌, ◌++◌, ◌+◌, ◌==◌, ◌||◌, ◌∷◌,
}

-- What `frontmatter.get("tags")` finds: an array, with the items that are strings, a string, or
-- something else or nothing.
pub data TagsValue : Type 0 where
  tags_array : List (Option Text) → TagsValue
  tags_string : Text → TagsValue
  no_tags : TagsValue

-- ```` ``` ```` and `~~~` open and close a fenced block.
abbrev pub is_fence : Text → Bool
is_fence trimmed = starts_with trimmed (codes "```") || starts_with trimmed (codes "~~~")

-- The number of backticks that a text begins with.
abbrev pub leading_ticks : Text → ℕ
leading_ticks [] = 0
leading_ticks (c ∷ cs) = let more = leading_ticks cs in if c == b'`' then 1 + more else 0

-- The state of inline code behind a run of backticks: the length of the run that opened it.
abbrev pub after_run : ℕ → Option ℕ → Option ℕ
after_run run none = some run
after_run run (some opening) = if opening == run then none else some opening

abbrev pub is_none_or : (ℕ → Bool) → Option ℕ → Bool
is_none_or p none = true
is_none_or p (some c) = p c

abbrev pub is_tick : Option ℕ → Bool
is_tick none = false
is_tick (some c) = c == b'`'

abbrev pub is_none : Option ℕ → Bool
is_none none = true
is_none (some _) = false

module _ (is_alphanumeric : ℕ → Bool) where
  abbrev pub is_tag_character : ℕ → Bool
  is_tag_character c = is_alphanumeric c || c == b'-' || c == b'_' || c == b'/'

  -- `is_valid_tag`
  unfoldable pub is_valid_tag : Text → Bool
  is_valid_tag tag =
      not (is_empty tag) && all is_tag_character tag && any (λ c. not (is_ascii_digit c)) tag

  abbrev pub tag_of : Text → Text
  tag_of raw = trim_start_matches (λ c. c == b'#') (trim raw)

  -- `push_tag`
  unfoldable pub push_tag : List Text → Text → List Text
  push_tag tags raw =
      if is_valid_tag (tag_of raw) && not (contains (tag_of raw) tags)
      then tags ++ tag_of raw ∷ []
      else tags

  -- The candidate behind a `#`, pushed if it is valid.
  abbrev pub push_candidate : List Text → Text → List Text
  push_candidate tags cs =
      let candidate = take_while is_tag_character cs in
      if is_valid_tag candidate then push_tag tags candidate else tags

  -- The loop of `scan_line_tags`, with its state. A run of backticks is counted at its first one;
  -- the others of the run change nothing.
  unfoldable pub scan : Option ℕ → Option ℕ → List Text → Text → List Text
  scan previous inline_ticks tags [] = tags
  scan previous inline_ticks tags (c ∷ cs) =
      let ticks =
        if c == b'`' && not (is_tick previous)
        then after_run (1 + leading_ticks cs) inline_ticks
        else inline_ticks in
      let found =
        if not (c == b'`') && is_none inline_ticks && c == b'#' && is_none_or is_whitespace previous
        then push_candidate tags cs
        else tags in
      scan (some c) ticks found cs

  -- `scan_line_tags`
  unfoldable pub scan_line_tags : Text → List Text → List Text
  unfolding scan
  scan_line_tags line tags = scan none none tags line

  -- The loop of `collect_inline_tags`.
  unfoldable pub collect_lines : Bool → List Text → List Text → List Text
  collect_lines in_fence tags [] = tags
  collect_lines in_fence tags (line ∷ rest) =
      if is_fence (trim_start line)
      then collect_lines (not in_fence) tags rest
      else collect_lines in_fence (if in_fence then tags else scan_line_tags line tags) rest

  -- `collect_inline_tags`
  unfoldable pub collect_inline_tags : Text → List Text → List Text
  unfolding collect_lines
  collect_inline_tags body tags = collect_lines false tags (lines body)

  abbrev pub push_item : List Text → Option Text → List Text
  push_item tags (some tag) = push_tag tags tag
  push_item tags none = tags

  abbrev pub push_items : List Text → List (Option Text) → List Text
  push_items tags [] = tags
  push_items tags (item ∷ items) = push_items (push_item tags item) items

  abbrev pub frontmatter_tags : TagsValue → List Text
  frontmatter_tags (tags_array items) = push_items [] items
  frontmatter_tags (tags_string value) = push_tag [] value
  frontmatter_tags no_tags = []

  -- `extract_tags`
  unfoldable pub extract_tags : TagsValue → Text → List Text
  extract_tags value body = collect_inline_tags body (frontmatter_tags value)
