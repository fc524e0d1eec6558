-- ===== src/Index/Block.antt =====
-- The managed block: `render_block`, `single_line_summary` and `existing_summaries`
-- (crates/contextos-index/src/lib.rs). A `HashMap` is the list of its insertions, the last first.
pub mod Find
pub mod Lines
pub mod Rows
use context_os_mcp.Prelude.{
  Bool, List, Option, Result, Text, [], codes, err, if◌then◌else◌, is_empty, join_text, lines,
  list_eq, nat_eq, none, ok, reverse, some, split_whitespace, strip_prefix, trim, ℕ, ◌++◌, ◌+◌,
  ◌==◌, ◌>>=◌, ◌||◌, ◌∷◌,
}
use context_os_mcp.Vault.Confine.{split_once}

pub data IndexEntryKind : Type 0 where
  directory file : IndexEntryKind

pub record IndexEntry : Type 0 where
  pub name : Text
  pub kind : IndexEntryKind
  pub suggested_summary : Text

-- `IndexError`, without the errors of the frontmatter
pub data IndexError : Type 0 where
  invalid_markers : IndexError
  invalid_row : ℕ → IndexError
  invalid_entry_name duplicate_entry : Text → IndexError

abbrev pub begin_marker : Text
begin_marker = codes "<!-- contextos:index:begin -->"

abbrev pub end_marker : Text
end_marker = codes "<!-- contextos:index:end -->"

abbrev pub table_header : Text
table_header = codes "| Item | Summary |"

abbrev pub table_rule : Text
table_rule = codes "| --- | --- |"

abbrev pub Summaries : Type 0
Summaries = List (Text × Text)

abbrev pub lookup : Text → Summaries → Option Text
lookup name [] = none
lookup name ((n, s) ∷ summaries) =
    let rest = lookup name summaries in if name == n then some s else rest

-- `replace('|', "\\|")`
unfoldable pub escape_bars : Text → Text
escape_bars [] = []
escape_bars (c ∷ cs) =
    let rest = escape_bars cs in if c == b'|' then b'\\' ∷ b'|' ∷ rest else c ∷ rest

-- `single_line_summary`
unfoldable pub single_line_summary : Text → Text
single_line_summary value = escape_bars (join_text (codes " ") (split_whitespace value))

abbrev pub auto_summary : IndexEntry → Text
auto_summary entry = single_line_summary entry.suggested_summary ++ codes " <!-- auto -->"

abbrev pub or_auto : Option Text → IndexEntry → Text
or_auto (some summary) entry = summary
or_auto none entry = auto_summary entry

abbrev pub summary_of : Summaries → IndexEntry → Text
summary_of existing entry = or_auto (lookup entry.name existing) entry

-- The row of an entry
abbrev pub row_target : IndexEntryKind → Text → Text
row_target directory name = name ++ codes "/index.md"
row_target file name = name

abbrev pub row_label : IndexEntryKind → Text → Text
row_label directory name = name ++ codes "/"
row_label file name = name

abbrev pub row : Summaries → IndexEntry → Text
row existing entry =
    codes "| ["
    ++ (row_label entry.kind entry.name
        ++ (codes "]("
            ++ (row_target entry.kind entry.name
                ++ (codes ") | " ++ (summary_of existing entry ++ codes " |")))))

abbrev pub render_rows : Summaries → List IndexEntry → Text
render_rows existing [] = []
render_rows existing (entry ∷ entries) =
    b'\n' ∷ (row existing entry ++ render_rows existing entries)

-- `render_block`, between its markers
abbrev pub block_body : List IndexEntry → Summaries → Text
block_body entries existing =
    b'\n' ∷ (table_header ++ (b'\n' ∷ (table_rule ++ (render_rows existing entries ++ codes "\n"))))

-- `render_block`
unfoldable pub render_block : List IndexEntry → Summaries → Text
render_block entries existing = begin_marker ++ (block_body entries existing ++ end_marker)

-- `strip_suffix`
abbrev pub turned_back : Option Text → Option Text
turned_back none = none
turned_back (some front) = some (reverse front)

abbrev pub strip_suffix : Text → Text → Option Text
strip_suffix suffix s = turned_back (strip_prefix (reverse suffix) (reverse s))

abbrev pub or_whole : Text → Option Text → Text
or_whole s none = s
or_whole s (some front) = front

abbrev pub without_suffix : Text → Text → Text
without_suffix suffix s = or_whole s (strip_suffix suffix s)

-- The parts of a row, each found behind the one before.
abbrev pub row_summary : Text → Option Text → Option (Text × Text)
row_summary target none = none
row_summary target (some summary) = some (without_suffix (codes "/index.md") target, summary)

abbrev pub row_end : Option (Text × Text) → Option (Text × Text)
row_end none = none
row_end (some (target, behind)) = row_summary target (strip_suffix (codes " |") behind)

abbrev pub row_destination : Option (Text × Text) → Option (Text × Text)
row_destination none = none
row_destination (some (_, destination)) = row_end (split_once (codes ") | ") destination)

abbrev pub row_start : Option Text → Option (Text × Text)
row_start none = none
row_start (some row) = row_destination (split_once (codes "](") row)

-- The name and the summary of a row of the table, if it is one.
unfoldable pub parse_row : Text → Option (Text × Text)
parse_row trimmed = row_start (strip_prefix (codes "| [") trimmed)

abbrev pub is_table_head : Text → Bool
is_table_head trimmed = is_empty trimmed || trimmed == table_header || trimmed == table_rule

abbrev pub insert_row : ℕ → Option (Text × Text) → Summaries → Result IndexError Summaries
insert_row line none summaries = err (invalid_row line)
insert_row line (some r) summaries = ok (r ∷ summaries)

abbrev pub read_row : ℕ → Text → Summaries → Result IndexError Summaries
read_row line trimmed summaries =
    if is_table_head trimmed then ok summaries else insert_row line (parse_row trimmed) summaries

-- The loop of `existing_summaries`, at a line number.
unfoldable pub summaries_from : ℕ → List Text → Summaries → Result IndexError Summaries
unfolding ◌>>=◌
summaries_from line [] summaries = ok summaries
summaries_from line (l ∷ ls) summaries =
    read_row line (trim l) summaries >>= summaries_from (line + 1) ls

-- `existing_summaries`
unfoldable pub existing_summaries : Text → ℕ → Result IndexError Summaries
existing_summaries block first_line = summaries_from first_line (lines block) []
