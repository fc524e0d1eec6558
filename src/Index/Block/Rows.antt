-- ===== src/Index/Block/Rows.antt =====
-- What the rows of a rendered block say is read back from it.
use context_os_mcp.Prelude.{
  All, List, Text, [], ap, append_assoc, arith, beq_refl, codes, contains, false, lines, list_eq,
  map, nat_eq, ok, refl, some, sym, trim, without_return, ℕ, ◌++◌, ◌+◌, ◌>>=◌, ◌∙◌, ◌∷◌, ◌≡◌,
}
use context_os_mcp.Index.Block.{
  IndexEntryKind, directory, file, IndexEntry, begin_marker, end_marker, table_header, table_rule,
  Summaries, lookup, summary_of, row_target, row_label, row, render_rows, block_body, render_block,
  without_suffix, parse_row, summaries_from, existing_summaries, row_destination, row_end,
  row_summary,
}
use context_os_mcp.Index.Block.Find.{EndsFront, split_once-front, strip_suffix-append}
use context_os_mcp.Index.Block.Lines.{
  OneLine, lines-line, append-OneLine, trim-visible, without_return-visible,
}

-- An entry whose row can be read back: its name and its summary are on one line, the separators of
-- the row are first found where the row has them, and a file is not named like a directory's index.
pub record IsPlain (existing : Summaries) (entry : IndexEntry) : Type 0 where
  pub name_line : OneLine entry.name
  pub summary_line : OneLine (summary_of existing entry)
  pub label_ends : EndsFront (codes "](") (row_label entry.kind entry.name)
  pub target_ends : EndsFront (codes ") | ") (row_target entry.kind entry.name)
  pub name_back : without_suffix (codes "/index.md") (row_target entry.kind entry.name) ≡ entry.name

-- No name stands twice.
abbrev pub names : List IndexEntry → List Text
names = map (λ e. e.name)

abbrev pub HasNamesOnce : List IndexEntry → Type 0
HasNamesOnce [] = Unit
HasNamesOnce (entry ∷ entries) =
    (contains entry.name (names entries) ≡ false) × HasNamesOnce entries

module _ (existing : Summaries) where
  parse_row-row :
      (entry : IndexEntry)
      → IsPlain existing entry
      → parse_row (row existing entry) ≡ some (entry.name, summary_of existing entry)
  unfolding parse_row
  parse_row-row entry plain =
      let target = row_target entry.kind entry.name in
      let summary = summary_of existing entry in
      ap row_destination (
        split_once-front (codes "](") (row_label entry.kind entry.name)
          (target ++ (codes ") | " ++ (summary ++ codes " |"))) plain.label_ends)
      ∙ ap row_end
          (split_once-front (codes ") | ") target (summary ++ codes " |") plain.target_ends)
      ∙ ap (row_summary target) (strip_suffix-append (codes " |") summary)
      ∙ ap (λ n. some (n, summary)) plain.name_back

  -- The row without its first and its last character.
  inside : IndexEntry → Text
  inside entry =
      codes " ["
      ++ (row_label entry.kind entry.name
          ++ (codes "]("
              ++ (row_target entry.kind entry.name
                  ++ (codes ") | " ++ (summary_of existing entry ++ codes " ")))))

  row-inside : (entry : IndexEntry) → row existing entry ≡ b'|' ∷ (inside entry ++ b'|' ∷ [])
  unfolding inside
  row-inside entry = simp append_assoc

  trim-row : (entry : IndexEntry) → trim (row existing entry) ≡ row existing entry
  trim-row entry =
      ap trim (row-inside entry)
      ∙ trim-visible b'|' b'|' (inside entry) refl refl
      ∙ sym (row-inside entry)

  without_return-row :
      (entry : IndexEntry) → without_return (row existing entry) ≡ row existing entry
  without_return-row entry =
      ap without_return (row-inside entry)
      ∙ without_return-visible (b'|' ∷ inside entry) b'|' refl
      ∙ sym (row-inside entry)

  label-OneLine :
      (kind : IndexEntryKind) (name : Text) → OneLine name → OneLine (row_label kind name)
  label-OneLine directory name h = append-OneLine name (codes "/") h refl
  label-OneLine file name h = h

  target-OneLine :
      (kind : IndexEntryKind) (name : Text) → OneLine name → OneLine (row_target kind name)
  target-OneLine directory name h = append-OneLine name (codes "/index.md") h refl
  target-OneLine file name h = h

  row-OneLine : (entry : IndexEntry) → IsPlain existing entry → OneLine (row existing entry)
  row-OneLine entry plain =
      append-OneLine (row_label entry.kind entry.name) _
        (label-OneLine entry.kind entry.name plain.name_line)
        (append-OneLine (row_target entry.kind entry.name) _
          (target-OneLine entry.kind entry.name plain.name_line)
          (append-OneLine (summary_of existing entry) (codes " |") plain.summary_line refl))

  lines-rows :
      (p : Text) (entries : List IndexEntry)
      → OneLine p
      → All (IsPlain existing) entries
      → lines (p ++ (render_rows existing entries ++ codes "\n"))
        ≡ without_return p ∷ map (row existing) entries
  lines-rows p [] h plain = lines-line p [] h
  lines-rows p (entry ∷ entries) h (this, plain) =
      let r = row existing entry in
      let rest = render_rows existing entries in
      lines-line p ((r ++ rest) ++ codes "\n") h
      ∙ ap (λ ls. without_return p ∷ ls)
          (ap lines (append_assoc r rest (codes "\n"))
            ∙ lines-rows r entries (row-OneLine entry this) plain
            ∙ ap (λ l. l ∷ map (row existing) entries) (without_return-row entry))

  lines-block_body :
      (entries : List IndexEntry)
      → All (IsPlain existing) entries
      → lines (block_body entries existing)
        ≡ [] ∷ table_header ∷ table_rule ∷ map (row existing) entries
  lines-block_body entries plain =
      let behind = table_rule ++ (render_rows existing entries ++ codes "\n") in
      lines-line [] (table_header ++ (b'\n' ∷ behind)) refl
      ∙ ap (λ ls. [] ∷ ls)
          (lines-line table_header behind refl
            ∙ ap (λ ls. table_header ∷ ls) (lines-rows table_rule entries refl plain))

  -- What the loop inserts, row by row.
  abbrev pub push_all : List IndexEntry → Summaries → Summaries
  push_all [] summaries = summaries
  push_all (entry ∷ entries) summaries =
      push_all entries ((entry.name, summary_of existing entry) ∷ summaries)

  summaries_from-rows :
      (line : ℕ) (entries : List IndexEntry) (summaries : Summaries)
      → All (IsPlain existing) entries
      → summaries_from line (map (row existing) entries) summaries ≡ ok (push_all entries summaries)
  unfolding summaries_from ◌>>=◌
  summaries_from-rows line [] summaries plain = refl
  summaries_from-rows line (entry ∷ entries) summaries (this, plain) =
      rw (trim-row entry, parse_row-row entry this)
        (summaries_from-rows (line + 1) entries
          ((entry.name, summary_of existing entry) ∷ summaries) plain)

  existing_summaries-block_body :
      (entries : List IndexEntry) (line : ℕ)
      → All (IsPlain existing) entries
      → existing_summaries (block_body entries existing) line ≡ ok (push_all entries [])
  unfolding existing_summaries summaries_from ◌>>=◌
  existing_summaries-block_body entries line plain =
      ap (λ ls. summaries_from line ls []) (lines-block_body entries plain)
      ∙ summaries_from-rows (line + 1 + 1 + 1) entries [] plain

  lookup-push_all :
      (name : Text) (entries : List IndexEntry) (summaries : Summaries)
      → contains name (names entries) ≡ false
      → lookup name (push_all entries summaries) ≡ lookup name summaries
  lookup-push_all name [] summaries h = refl
  lookup-push_all name (entry ∷ entries) summaries h =
      lookup-push_all name entries ((entry.name, summary_of existing entry) ∷ summaries)
        (ground arith)
      ∙ ground arith

  -- Every entry's summary is found again.
  abbrev pub AreKept : List IndexEntry → Summaries → Type 0
  AreKept entries parsed = All (λ e. lookup e.name parsed ≡ some (summary_of existing e)) entries

  push_all-AreKept :
      (entries : List IndexEntry) (summaries : Summaries)
      → HasNamesOnce entries
      → AreKept entries (push_all entries summaries)
  push_all-AreKept [] summaries h = tt
  push_all-AreKept (entry ∷ entries) summaries (fresh, h) = (
    lookup-push_all entry.name entries ((entry.name, summary_of existing entry) ∷ summaries) fresh
        ∙ rw (beq_refl entry.name) refl,
    push_all-AreKept entries ((entry.name, summary_of existing entry) ∷ summaries) h,
  )

  render_rows-kept :
      (entries : List IndexEntry) (parsed : Summaries)
      → AreKept entries parsed
      → render_rows parsed entries ≡ render_rows existing entries
  render_rows-kept [] parsed h = refl
  render_rows-kept (entry ∷ entries) parsed (same, h) =
      rw (same, render_rows-kept entries parsed h) refl

  -- If the names of the entries are distinct and their rows plain, then from a rendered block, on
  -- whatever line it stands, reading the summaries gives for every entry the summary that its row
  -- has, and rendering the entries with what was read gives the same block again.
  pub existing_summaries-render_block :
      (entries : List IndexEntry) (line : ℕ)
      → All (IsPlain existing) entries
      → HasNamesOnce entries
      → (parsed : Summaries) × (existing_summaries (block_body entries existing) line ≡ ok parsed)
        × AreKept entries parsed
        × (render_block entries parsed ≡ render_block entries existing)
  unfolding render_block
  existing_summaries-render_block entries line plain once =
      let parsed = push_all entries [] in
      let kept = push_all-AreKept entries [] once in
      (
        parsed,
        existing_summaries-block_body entries line plain,
        kept,
        ap
            (λ rows.
              begin_marker
              ++ ((b'\n' ∷ (table_header ++ (b'\n' ∷ (table_rule ++ (rows ++ codes "\n")))))
                  ++ end_marker))
            (render_rows-kept entries parsed kept),
      )
