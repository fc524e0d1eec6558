-- ===== src/Examples/IndexService.antt =====
-- The index service of the vault "notes", over a world with one note and a log of the writes.
use context_os_mcp.Prelude.{
  some, none, All, Bool, List, Option, Result, Text, [], ap, codes, false, if◌then◌else◌, length,
  list_eq, nat_eq, none, ok, ok-injective, option_eq, refl, split_whitespace, subst, suc, sym, true,
  zero, ℕ, ◌++◌, ◌==◌, ◌∙◌, ◌∷◌, ◌≡◌,
}
use context_os_mcp.Exec
use context_os_mcp.Prelude
use context_os_mcp.Vault.Confine
use context_os_mcp.Vault.Root.{id_try_from, file_name}
use context_os_mcp.Vault.Confine.{split_once, named_prefix, resolve_plain, finish, build, select}
use context_os_mcp.Vault.Lexical.{validate_lexical_input, validate_windows_input}
use context_os_mcp.Vault.Resolve.{resolve_with_missing_suffix, climb, at_ancestor, push_all}
use context_os_mcp.Operation.{forward_slash_display}
use context_os_mcp.Index.Block.{render_block, single_line_summary, escape_bars}
use context_os_mcp.Index.Document.{
  directory_title, index_document, validate_entries, validate_from, sort_entries,
}
use context_os_mcp.Index.Summary.{index_summary}
use context_os_mcp.Index.Service.{
  affected, push_ancestors, path_from_relative, child_path, is_excluded, includes,
}
use context_os_mcp.Index.Service.Reconcile.{
  reconcile_directories, reconcile_directory, migrate_legacy_index, persist_directory, index_rows,
  save_index,
}
use context_os_mcp.FilePath.{FilePath, components, join, normal}
use context_os_mcp.Operation.{OperationEvent, modify, tool, WriteMutation}
use context_os_mcp.Vault.Confine.{VaultPath}
use context_os_mcp.Vault.Root.{VaultRoot}
use context_os_mcp.Index.Service.{IndexService, VaultEntry, file, directory}
use context_os_mcp.Index.Service.Reconcile.{own, reconcile_event}
use context_os_mcp.Index.Service.Rebuild.{
  RebuildState, rebuild_report, rebuild_directory, visit_children, count_directory,
  is_config_excluded,
}
use context_os_mcp.Index.Service.Rebuild.Kept.{rebuild_report-Keeps}
use context_os_mcp.Index.Service.Rebuild.Bounded.{
  IsEnded, AllBelow, HasDepth, rebuild_report-IsEnded,
}
use context_os_mcp.Exec.Kept.{Returned, Keeps}
use context_os_mcp.Index.Service.Reconcile.Allowed.{child_of, IsKept}
use context_os_mcp.Index.Service.Reconcile.Kept.{reconcile_event-Keeps}
use context_os_mcp.Examples.Server.{server, notes}

-- The writes so far, the last first.
abbrev pub World : Type 0
World = List WriteMutation

abbrev pub notes_root : VaultRoot
notes_root = record { resolved = notes; managed = true; name = codes "notes" }

abbrev pub todo : VaultEntry
todo = record { name = codes "todo.md"; kind = file }

abbrev pub hidden : VaultEntry
hidden = record { name = codes ".git"; kind = directory }

abbrev pub drafts : VaultEntry
drafts = record { name = codes "drafts"; kind = directory }

abbrev pub path_of : FilePath → VaultPath
path_of relative = record {
  root = record { value = 0 };
  relative = relative;
  absolute = notes ++ relative;
}

abbrev pub entries_at : FilePath → List VaultEntry
entries_at [] = hidden ∷ todo ∷ drafts ∷ []
entries_at (_ ∷ _) = []

abbrev todo_path : VaultPath
todo_path = path_of (normal (codes "todo.md") ∷ [])

abbrev pub service : IndexService World (Unit {0}) (Unit {0}) ℕ
service = record {
  root = notes_root;
  root_id = record { value = 0 };
  roots = record { roots = notes_root ∷ [] };
  excluded = [];
  read_optional_text = λ path w. (ok none, w);
  list = λ path w. (ok (entries_at path.relative), w);
  persist = λ m w. (
    ok (record {
      value = record {
        path = m.path;
        bytes_written = length m.content;
        content_hash = record { hex = [] };
        created = true;
      };
      event = none;
      warnings = [];
    }),
    m ∷ w,
  );
  move_path = λ m w. (
    ok (record {
      value = record { source = m.source; destination = m.destination };
      event = none;
      warnings = [];
    }),
    w,
  );
}

abbrev no_frontmatter : Text → Result (Unit {0}) (Option Text × Text)
no_frontmatter source = ok (none, source)

abbrev as_it_is : Text → Text
as_it_is s = s

abbrev to_uppercase : ℕ → Text
to_uppercase c = if c == b'd' then codes "D" else c ∷ []

abbrev changed_todo : OperationEvent ℕ
changed_todo = record {
  kind = modify;
  paths = todo_path ∷ [];
  origin = tool (codes "write");
  summary = codes "todo";
  at = 0;
}

-- Every write so far is unforced and of the index service.
abbrev AreGated : World → Type 0
AreGated = All (λ m. (m.force ≡ false) × (m.origin ≡ own))

AreGated-IsKept :
    IsKept {F = Unit {0}}
      (λ _. server)
      service
      no_frontmatter
      as_it_is
      to_uppercase
      false
      (λ base. is_excluded service base.relative ≡ false)
      AreGated
AreGated-IsKept = record {
  reads = λ path w p. p;
  lists = λ path w p. p;
  writes = λ wet m allowed w p. ((allowed.gated, allowed.of_service), p);
  moves = λ wet m allowed w p. p;
}

AreGated-IsKept_all :
    IsKept {F = Unit {0}}
      (λ _. server)
      service
      no_frontmatter
      as_it_is
      to_uppercase
      false
      (λ base. Unit {0})
      AreGated
AreGated-IsKept_all = record {
  reads = λ path w p. p;
  lists = λ path w p. p;
  writes = λ wet m allowed w p. ((allowed.gated, allowed.of_service), p);
  moves = λ wet m allowed w p. p;
}

reconcile_event-Keeps_example : Keeps AreGated (
    reconcile_event {F = Unit {0}}
      (λ _. server)
      service
      no_frontmatter
      as_it_is
      to_uppercase
      changed_todo)
reconcile_event-Keeps_example =
    reconcile_event-Keeps (λ _. server) service no_frontmatter as_it_is to_uppercase AreGated
      AreGated-IsKept changed_todo

abbrev new_index : Text
new_index =
    codes
      "# Vault: Index\n\n<!-- contextos:index:begin -->\n| Item | Summary |\n| --- | --- |\n| [drafts/](drafts/index.md) | Drafts <!-- auto --> |\n| [todo.md](todo.md) | todo <!-- auto --> |\n<!-- contextos:index:end -->\n"

abbrev new_write : FilePath → Text → WriteMutation
new_write relative content = record {
  path = path_of relative;
  content = content;
  expected_hash = none;
  force = false;
  origin = own;
}

abbrev root_write : WriteMutation
root_write = new_write (normal (codes "index.md") ∷ []) new_index

-- The change of the note makes a new index of its directory.
makes_index :
    reconcile_event {F = Unit {0}}
      (λ _. server)
      service
      no_frontmatter
      as_it_is
      to_uppercase
      changed_todo
      []
    ≡ (ok [], root_write ∷ [])
unfolding reconcile_event affected push_ancestors path_from_relative child_path is_excluded
    Confine.try_from named_prefix resolve_plain finish build select split_once
    validate_lexical_input validate_windows_input resolve_with_missing_suffix climb at_ancestor
    push_all components join id_try_from forward_slash_display reconcile_directories
    reconcile_directory migrate_legacy_index includes persist_directory index_rows save_index
    index_summary directory_title file_name index_document validate_entries validate_from
    sort_entries render_block single_line_summary split_whitespace escape_bars Exec.◌>>=◌
    Prelude.◌>>=◌
makes_index = refl

abbrev drafts_write : WriteMutation
drafts_write = new_write (normal (codes "drafts") ∷ normal (codes "index.md") ∷ []) (
    codes
      "# Drafts: Index\n\n<!-- contextos:index:begin -->\n| Item | Summary |\n| --- | --- |\n<!-- contextos:index:end -->\n")

abbrev report : RebuildState ℕ
report = record {
  directories_scanned = 2;
  indexes_updated = 0;
  indexes_created = 2;
  skipped = 0;
  events = [];
}

-- A rebuild of the vault makes both indexes; a dry run reports them and writes nothing.
makes_both :
    (dry_run : Bool)
    → rebuild_report {F = Unit {0}}
        (λ _. server)
        service
        no_frontmatter
        as_it_is
        to_uppercase
        2
        (path_of [])
        dry_run
        []
      ≡ (ok (some report), if dry_run then [] else drafts_write ∷ root_write ∷ [])
unfolding rebuild_report rebuild_directory visit_children count_directory is_config_excluded
    path_from_relative child_path is_excluded Confine.try_from named_prefix resolve_plain finish
    build select split_once validate_lexical_input validate_windows_input
    resolve_with_missing_suffix climb at_ancestor push_all components join id_try_from
    forward_slash_display migrate_legacy_index includes persist_directory index_rows save_index
    index_summary directory_title file_name index_document validate_entries validate_from
    sort_entries render_block single_line_summary split_whitespace escape_bars Exec.◌>>=◌
    Prelude.◌>>=◌
makes_both true = refl
makes_both false = refl

drafts_child :
    (path : VaultPath)
    → Returned
        (child_of {F = Unit {0}}
          (λ _. server)
          service
          no_frontmatter
          as_it_is
          to_uppercase
          (path_of [])
          (codes "drafts"))
        path
    → path_of (normal (codes "drafts") ∷ []) ≡ path
unfolding child_path path_from_relative forward_slash_display Confine.try_from named_prefix
    resolve_plain finish build select split_once validate_lexical_input validate_windows_input
    resolve_with_missing_suffix climb at_ancestor push_all components join id_try_from Prelude.◌>>=◌
drafts_child path (w, w', h) = ok-injective (ap (λ p. p.0) h)

abbrev Deep : ℕ → VaultPath → Type 0
Deep depth path =
    HasDepth {F = Unit {0}} (λ _. server) service no_frontmatter as_it_is to_uppercase depth path

abbrev Below : ℕ → VaultPath → List VaultEntry → Type 0
Below depth path listing =
    AllBelow {F = Unit {0}} (λ _. server) service no_frontmatter as_it_is to_uppercase (Deep depth)
      path listing

drafts-Deep : Deep 1 (path_of (normal (codes "drafts") ∷ []))
drafts-Deep listing (w, w', h) =
    subst (Below 0 (path_of (normal (codes "drafts") ∷ []))) (ok-injective (ap (λ p. p.0) h)) tt

vault-Deep : Deep 2 (path_of [])
unfolding includes
vault-Deep listing (w, w', h) =
    subst (Below 1 (path_of [])) (ok-injective (ap (λ p. p.0) h))
      ((λ path at. subst (Deep 1) (drafts_child path at) drafts-Deep), tt)

rebuild_report-Keeps_example : Keeps AreGated (
    rebuild_report {F = Unit {0}}
      (λ _. server)
      service
      no_frontmatter
      as_it_is
      to_uppercase
      2
      (path_of [])
      false)
rebuild_report-Keeps_example =
    rebuild_report-Keeps (λ _. server) service no_frontmatter as_it_is to_uppercase false AreGated
      AreGated-IsKept_all 2 (path_of [])

rebuild_report-IsEnded_example :
    IsEnded
      (rebuild_report {F = Unit {0}}
        (λ _. server)
        service
        no_frontmatter
        as_it_is
        to_uppercase
        2
        (path_of [])
        false
        []).0
rebuild_report-IsEnded_example =
    rebuild_report-IsEnded (λ _. server) service no_frontmatter as_it_is to_uppercase 2 false
      (path_of []) vault-Deep []
