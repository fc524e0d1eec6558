-- ===== src/Index/Document.antt =====
-- `IndexDocument`: `validate_entries`, the order of the entries, and the reconciliation of the
-- managed block with the text around it (crates/contextos-index/src/lib.rs). The case mappings of
-- Unicode beyond single characters are parameters. Positions count characters, which have the order of
-- those of bytes; the markers cannot overlap, so the text between them always exists.
pub mod Around
pub mod Settled
use Prim.Native.Nat.{compare, Ordering}
use context_os_mcp.Prelude.{
  split_on, not, keep, map, join_text, Bool, List, Option, Result, Text, [], codes, contains, drop,
  err, false, if◌then◌else◌, is_empty, length, lines, list_eq, ltb, nat_eq, none, ok, some, take,
  true, ℕ, ◌++◌, ◌+◌, ◌==◌, ◌>>=◌, ◌>>◌, ◌||◌, ◌∷◌,
}
use context_os_mcp.Vault.Confine.{split_once}
use context_os_mcp.Index.Block.{
  IndexEntryKind, directory, file, IndexEntry, IndexError, invalid_markers, invalid_entry_name,
  duplicate_entry, begin_marker, end_marker, render_block, existing_summaries,
}

-- `str::find`, as a number of characters; `str::contains` of a text
abbrev pub front_length : Option (Text × Text) → Option ℕ
front_length none = none
front_length (some (front, _)) = some (length front)

abbrev pub find : Text → Text → Option ℕ
find pattern s = front_length (split_once pattern s)

abbrev pub is_found : Option (Text × Text) → Bool
is_found none = false
is_found (some _) = true

abbrev pub contains_text : Text → Text → Bool
contains_text pattern s = is_found (split_once pattern s)

abbrev pub slice_between : ℕ → ℕ → Text → Text
slice_between from to s = drop from (take to s)

-- The loop of `validate_entries`, with the names seen.
unfoldable pub validate_from : List Text → List IndexEntry → Result IndexError (Unit {0})
validate_from names [] = ok tt
validate_from names (entry ∷ entries) =
    let rest = validate_from (entry.name ∷ names) entries in
    if is_empty entry.name || contains b'\r' entry.name || contains b'\n' entry.name
    then err (invalid_entry_name entry.name)
    else if contains entry.name names
    then err (duplicate_entry entry.name)
    else rest

-- `validate_entries`
unfoldable pub validate_entries : List IndexEntry → Result IndexError (Unit {0})
validate_entries entries = validate_from [] entries

abbrev pub ends_with_newline : Text → Bool
ends_with_newline [] = false
ends_with_newline (c ∷ []) = c == b'\n'
ends_with_newline (c ∷ d ∷ cs) = ends_with_newline (d ∷ cs)

abbrev pub with_newline : Text → Text
with_newline s = if ends_with_newline s then s else s ++ codes "\n"

abbrev pub with_blank_line : Text → Text
with_blank_line s = if is_empty s then s else s ++ codes "\n"

-- A block appended to a file without markers.
abbrev pub appended_block : Text → List IndexEntry → Text
appended_block source entries =
    with_blank_line (with_newline source)
    ++ (codes "## Contents\n\n" ++ (render_block entries [] ++ codes "\n"))

-- The text between the markers at `start` and `stop`, and the text behind the second one.
abbrev pub managed_text : ℕ → ℕ → Text → Text
managed_text start stop source = slice_between (start + length begin_marker) stop source

abbrev pub text_behind : ℕ → Text → Text
text_behind stop source = drop (stop + length end_marker) source

abbrev pub more_markers : ℕ → ℕ → Text → Bool
more_markers start stop source =
    contains_text begin_marker (text_behind stop source)
    || contains_text end_marker (text_behind stop source)
    || contains_text begin_marker (managed_text start stop source)

-- The branch of `reconcile_existing` for a file with a managed block.
unfoldable pub replace_block : ℕ → ℕ → Text → List IndexEntry → Result IndexError Text
unfolding ◌>>=◌
replace_block start stop source entries =
    if more_markers start stop source then err invalid_markers else do
      summaries ←
          existing_summaries (managed_text start stop source)
            (length (lines (take start source)) + 1)
      ok (take start source ++ (render_block entries summaries ++ text_behind stop source))

abbrev pub reconcile_at : Option ℕ → Option ℕ → Text → List IndexEntry → Result IndexError Text
reconcile_at none none source entries = ok (appended_block source entries)
reconcile_at (some start) (some stop) source entries =
    if ltb start stop then replace_block start stop source entries else err invalid_markers
reconcile_at none (some _) source entries = err invalid_markers
reconcile_at (some _) none source entries = err invalid_markers

-- `reconcile_existing`
unfoldable pub reconcile_existing : Text → List IndexEntry → Result IndexError Text
reconcile_existing source entries =
    reconcile_at (find begin_marker source) (find end_marker source) source entries

-- The order of text, and that of the entries: directories first, then by the name in lower case,
-- then by the name.
abbrev pub then_with : Ordering → Ordering → Ordering
then_with Ordering.eq second = second
then_with Ordering.lt second = Ordering.lt
then_with Ordering.gt second = Ordering.gt

abbrev pub compare_text : Text → Text → Ordering
compare_text [] [] = Ordering.eq
compare_text [] (_ ∷ _) = Ordering.lt
compare_text (_ ∷ _) [] = Ordering.gt
compare_text (a ∷ x) (b ∷ y) = then_with (compare a b) (compare_text x y)

abbrev pub kind_rank : IndexEntryKind → ℕ
kind_rank directory = 0
kind_rank file = 1

abbrev pub not_greater : Ordering → Bool
not_greater Ordering.gt = false
not_greater _ = true

module _ (to_lowercase : Text → Text) where
  abbrev pub entry_order : IndexEntry → IndexEntry → Ordering
  entry_order a b = then_with (compare (kind_rank a.kind) (kind_rank b.kind)) (
      then_with (compare_text (to_lowercase a.name) (to_lowercase b.name))
        (compare_text a.name b.name))

  -- `sort_by`, which keeps the order of equal entries
  abbrev pub insert_entry : IndexEntry → List IndexEntry → List IndexEntry
  insert_entry entry [] = entry ∷ []
  insert_entry entry (e ∷ entries) =
      let rest = insert_entry entry entries in
      if not_greater (entry_order entry e) then entry ∷ e ∷ entries else e ∷ rest

  unfoldable pub sort_entries : List IndexEntry → List IndexEntry
  sort_entries [] = []
  sort_entries (entry ∷ entries) = insert_entry entry (sort_entries entries)

module _ (to_uppercase : ℕ → Text) where
  abbrev pub capitalised : Text → Text
  capitalised [] = []
  capitalised (c ∷ cs) = to_uppercase c ++ cs

  -- `directory_title`
  unfoldable pub directory_title : Text → Text
  directory_title value = join_text (codes " ") (
      map capitalised (
        keep (λ word. not (is_empty word))
          (split_on (λ c. c == b'-' || c == b'_' || c == b' ') value)))

module _ (to_lowercase : Text → Text) (to_uppercase : ℕ → Text) where
  abbrev pub document_of : Option Text → Text → List IndexEntry → Result IndexError Text
  document_of none name entries = ok (
      codes "# "
      ++ (directory_title to_uppercase name
          ++ (codes ": Index\n\n" ++ (render_block entries [] ++ codes "\n"))))
  document_of (some source) name entries = reconcile_existing source entries

  -- `IndexDocument::try_from`
  unfoldable pub index_document : Option Text → Text → List IndexEntry → Result IndexError Text
  unfolding ◌>>=◌
  index_document source name entries = do
    validate_entries entries
    document_of source name (sort_entries to_lowercase entries)
