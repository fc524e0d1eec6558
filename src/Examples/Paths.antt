-- ===== src/Examples/Paths.antt =====
-- Path validation on the example server.
use context_os_mcp.Prelude.{
  [], codes, eq_ignore_ascii_case, err, false, get_elem?, none, ok, refl, some, true, ◌++◌, ◌>>=◌,
  ◌↔◌, ◌∷◌, ◌≡◌,
}
use context_os_mcp.FilePath.{FilePath, normal, components, join}
use context_os_mcp.Vault.Error.{symlink_escape}
use context_os_mcp.Vault.Root
use context_os_mcp.Vault.Root.{
  VaultRoot, VaultRootInput, IsRoot, id_try_from, is_valid_scheme_token, file_name,
}
use context_os_mcp.Vault.Set
use context_os_mcp.Vault.Set.{root_by_name, root}
use context_os_mcp.Vault.Set.Distinct.{IsVaultSet, try_from_iff}
use context_os_mcp.Vault.Lexical.{validate_lexical_input, validate_windows_input}
use context_os_mcp.Vault.Resolve.{resolve_with_missing_suffix, climb, at_ancestor, push_all}
use context_os_mcp.Vault.Resolve.Longest.{IsLongest, resolve_with_missing_suffix-IsLongest}
use context_os_mcp.Vault.Confine.{
  VaultPath, refused, split_once, named_prefix, select, build, finish, resolve_within_named_root,
  resolve_plain, try_from, try_from_vault_selector, authorises,
}
use context_os_mcp.Vault.Confine.Authorised.{IsConfined, try_from-IsConfined}
use context_os_mcp.Vault.Confine.Named.{try_from-named}
use context_os_mcp.Vault.Confine.Selector.{IsPresent, selector_selects_root}
use context_os_mcp.Examples.Server.{
  server, server-IsLawful, notes, work, work_root, both, notes_root-IsRoot, work_root-IsRoot,
  both-IsVaultSet,
}

abbrev new_note : FilePath
new_note = normal (codes "a") ∷ normal (codes "b.md") ∷ []

abbrev new_path : VaultPath
new_path = record { root = record { value = 0 }; relative = new_note; absolute = notes ++ new_note }

-- A new file below a directory that does not exist yet.
named_new : try_from server both (codes "notes://a/b.md") ≡ ok new_path
unfolding try_from named_prefix resolve_within_named_root finish build select split_once
    validate_lexical_input validate_windows_input resolve_with_missing_suffix climb at_ancestor
    push_all root_by_name id_try_from is_valid_scheme_token components join ◌>>=◌
named_new = refl

-- The link leads out of the named root.
named_link :
    try_from server both (codes "notes://link/x.md")
    ≡ err (refused (symlink_escape (notes ++ normal (codes "link") ∷ normal (codes "x.md") ∷ [])))
unfolding try_from named_prefix resolve_within_named_root finish build select split_once
    validate_lexical_input validate_windows_input resolve_with_missing_suffix climb at_ancestor
    push_all root_by_name id_try_from is_valid_scheme_token components join ◌>>=◌
named_link = refl

-- An absolute path through the link lands in the other root.
plain_link :
    try_from server both (codes "/srv/notes/link/x.md")
    ≡ ok (record {
      root = record { value = 1 };
      relative = normal (codes "x.md") ∷ [];
      absolute = work ++ normal (codes "x.md") ∷ [];
    })
unfolding try_from named_prefix resolve_plain finish build select split_once validate_lexical_input
    validate_windows_input resolve_with_missing_suffix climb at_ancestor push_all root_by_name
    id_try_from is_valid_scheme_token components join ◌>>=◌
plain_link = refl

split_notes :
    split_once (codes "://") (codes "notes://a/b.md") ≡ some (codes "notes", codes "a/b.md")
unfolding split_once
split_notes = refl

notes_token : is_valid_scheme_token (codes "notes") ≡ true
unfolding is_valid_scheme_token
notes_token = refl

try_from-IsConfined_example : IsConfined both new_path × (authorises both new_path ≡ true)
try_from-IsConfined_example =
    try_from-IsConfined server server-IsLawful both (notes_root-IsRoot, (work_root-IsRoot, tt))
      (codes "notes://a/b.md") new_path named_new

try_from-named_example :
    (r : VaultRoot) × (get_elem? both.roots new_path.root.value ≡ some r)
    × (eq_ignore_ascii_case r.name (codes "notes") ≡ true)
try_from-named_example =
    try_from-named server both (codes "notes://a/b.md") (codes "notes") (codes "a/b.md") new_path
      server-IsLawful (notes_root-IsRoot, (work_root-IsRoot, tt)) split_notes notes_token named_new

work_root-IsPresent : IsPresent server work_root
work_root-IsPresent = record { exists = refl; resolves = refl; utf8 = refl; empty_utf8 = refl }

selector_selects_root_example :
    try_from_vault_selector server both (codes "WORK")
    ≡ ok (record { root = record { value = 1 }; relative = []; absolute = work })
selector_selects_root_example =
    selector_selects_root server both.roots both-IsVaultSet 1 work_root (codes "WORK") refl refl
      work_root-IsRoot work_root-IsPresent

resolved_note : resolve_with_missing_suffix server (notes ++ new_note) ≡ ok (notes ++ new_note)
unfolding resolve_with_missing_suffix climb at_ancestor push_all join ◌>>=◌
resolved_note = refl

resolve_with_missing_suffix-IsLongest_example :
    IsLongest server (notes ++ new_note) (notes ++ new_note)
resolve_with_missing_suffix-IsLongest_example =
    resolve_with_missing_suffix-IsLongest server server-IsLawful (notes ++ new_note)
      (notes ++ new_note) resolved_note

try_from_iff_example :
    (Set.try_from both.roots ≡ ok both) ↔ (IsVaultSet both.roots × (both.roots ≡ both.roots))
try_from_iff_example = try_from_iff both.roots both

-- A root given through the link: named by where the link leads.
abbrev linked : VaultRootInput
linked = record { path = notes ++ normal (codes "link") ∷ []; managed = false; name = none }

linked-try_from : Root.try_from server linked ≡ ok work_root
unfolding Root.try_from file_name is_valid_scheme_token ◌>>=◌
linked-try_from = refl
