-- ===== src/Examples/Notes.antt =====
-- Tags and exact edits of concrete notes.
use context_os_mcp.Prelude.{
  List, Option, Text, [], codes, is_ascii_alphanumeric, none, ok, refl, some, ◌∷◌, ◌≡◌,
}
use context_os_mcp.Vault.Confine.{split_once}
use context_os_mcp.Files.Edit.{TextEdit, apply_exact_edit}
use context_os_mcp.Tags.{
  tags_array, is_valid_tag, push_tag, scan, scan_line_tags, collect_lines, collect_inline_tags,
  extract_tags,
}
use context_os_mcp.Tags.Valid.{IsTags, extract_tags-IsTags}
use context_os_mcp.Examples.Services.{todo}

abbrev items : List (Option Text)
items = some (codes "#project/alpha") ∷ none ∷ some (codes "2024") ∷ []

abbrev body : Text
body = codes "see #todo, `#code` and\n```\n#fenced\n```\n#project/alpha #2024"

all_tags :
    extract_tags is_ascii_alphanumeric (tags_array items) body
    ≡ codes "project/alpha" ∷ codes "todo" ∷ []
unfolding extract_tags collect_inline_tags collect_lines scan_line_tags scan push_tag is_valid_tag
all_tags = refl

extract_tags-IsTags_example :
    IsTags is_ascii_alphanumeric (extract_tags is_ascii_alphanumeric (tags_array items) body)
extract_tags-IsTags_example = extract_tags-IsTags is_ascii_alphanumeric (tags_array items) body

abbrev pub rename_word : TextEdit
rename_word = record { old_text = codes "milk"; new_text = codes "bread" }

one_word : apply_exact_edit (codes "buy milk now") rename_word todo ≡ ok (codes "buy bread now")
unfolding apply_exact_edit split_once
one_word = refl

-- Occurrences that overlap count once.
overlap_accepted :
    apply_exact_edit (codes "aaa") (record { old_text = codes "aa"; new_text = codes "b" }) todo
    ≡ ok (codes "ba")
unfolding apply_exact_edit split_once
overlap_accepted = refl
