-- ===== src/Examples/Indexes.antt =====
-- An index with a directory and a note, one with a summary of its own.
use context_os_mcp.Prelude.{
  All, List, Text, [], codes, none, ok, refl, some, split_whitespace, subst, ◌++◌, ◌>>=◌, ◌∷◌, ◌≡◌,
}
use context_os_mcp.Vault.Confine.{split_once}
use context_os_mcp.Files.Edit.Exact.{IsFirst, Never, Found, split_once-Found}
use context_os_mcp.Index.Block.{
  IndexEntry, directory, file, begin_marker, end_marker, Summaries, block_body, render_block,
  existing_summaries, single_line_summary, escape_bars, parse_row, summaries_from,
}
use context_os_mcp.Index.Block.Rows.{IsPlain, AreKept, existing_summaries-render_block}
use context_os_mcp.Index.Document.{reconcile_existing, replace_block}
use context_os_mcp.Index.Document.Around.{IsReconciled, reconcile_existing-IsReconciled}
use context_os_mcp.Index.Document.Settled.{IsSettled, around}

abbrev sub_folder : IndexEntry
sub_folder = record {
  name = codes "sub-folder";
  kind = directory;
  suggested_summary = codes "Sub | Folder";
}

abbrev note : IndexEntry
note = record { name = codes "note (2).md"; kind = file; suggested_summary = codes "Note" }

abbrev entries : List IndexEntry
entries = sub_folder ∷ note ∷ []

abbrev written : Summaries
written = (codes "note (2).md", codes "My own words") ∷ (codes "gone.md", codes "Gone") ∷ []

entries-IsPlain : All (IsPlain written) entries
unfolding single_line_summary escape_bars split_whitespace split_once
entries-IsPlain = (plain_folder, (plain_note, tt))
  where
    plain_folder : IsPlain written sub_folder
    plain_folder = record {
      name_line = refl;
      summary_line = refl;
      label_ends = refl;
      target_ends = refl;
      name_back = refl;
    }

    plain_note : IsPlain written note
    plain_note = record {
      name_line = refl;
      summary_line = refl;
      label_ends = refl;
      target_ends = refl;
      name_back = refl;
    }

existing_summaries-render_block_example :
    (parsed : Summaries) × (existing_summaries (block_body entries written) 3 ≡ ok parsed)
    × AreKept written entries parsed
    × (render_block entries parsed ≡ render_block entries written)
existing_summaries-render_block_example =
    existing_summaries-render_block written entries 3 entries-IsPlain (refl, (refl, tt))

abbrev front : Text
front = codes "# Vault\n\n"

abbrev back : Text
back = codes "\nMore.\n"

abbrev old_block : Text
old_block =
    begin_marker
    ++ (codes "\n| [gone.md](gone.md) | Gone |\n| [note (2).md](note (2).md) | My own words |\n"
        ++ end_marker)

abbrev source : Text
source = front ++ (old_block ++ back)

reconciled : reconcile_existing source entries ≡ ok (around front back entries written)
unfolding reconcile_existing replace_block existing_summaries summaries_from parse_row render_block
    single_line_summary escape_bars split_whitespace split_once ◌>>=◌
reconciled = refl

reconcile_existing-IsReconciled_example :
    IsReconciled source entries (around front back entries written)
reconcile_existing-IsReconciled_example = reconcile_existing-IsReconciled source entries reconciled

split_once-IsFirst :
    (pattern s before behind : Text)
    → split_once pattern s ≡ some (before, behind)
    → IsFirst pattern s before behind
split_once-IsFirst pattern s before behind h =
    subst (Found pattern s) h (split_once-Found pattern s)

split_once-Never : (pattern s : Text) → split_once pattern s ≡ none → Never pattern s
split_once-Never pattern s h = subst (Found pattern s) h (split_once-Found pattern s)

settled : IsSettled front back entries written
unfolding single_line_summary escape_bars split_whitespace split_once render_block
settled = record {
  begins = split_once-IsFirst begin_marker (around front back entries written) front _ refl;
  ends =
      split_once-IsFirst end_marker (around front back entries written)
        ((front ++ begin_marker) ++ block_body entries written) back refl;
  clear_block = split_once-Never begin_marker (block_body entries written) refl;
  clear_back = (split_once-Never begin_marker back refl, split_once-Never end_marker back refl);
}

-- A name with the separator of the columns: its row is read as a row of another file.
abbrev odd_note : IndexEntry
odd_note = record { name = codes "a) | b.md"; kind = file; suggested_summary = codes "Odd" }

odd_row :
    existing_summaries (block_body (odd_note ∷ []) ((codes "a) | b.md", codes "Kept?") ∷ [])) 1
    ≡ ok ((codes "a", codes "b.md) | Kept?") ∷ [])
unfolding existing_summaries summaries_from parse_row single_line_summary escape_bars
    split_whitespace split_once ◌>>=◌
odd_row = refl
