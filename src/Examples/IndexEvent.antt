-- ===== src/Examples/IndexEvent.antt =====
-- The directories above a note of the vault "notes".
use context_os_mcp.Prelude
use context_os_mcp.Prelude.{All, List, codes, [], ◌∷◌, ◌≡◌, ok, refl}
use context_os_mcp.FilePath.{normal, components, join}
use context_os_mcp.Operation.{forward_slash_display}
use context_os_mcp.Vault.Confine
use context_os_mcp.Vault.Confine.{
  VaultPath, split_once, named_prefix, resolve_plain, finish, build, select,
}
use context_os_mcp.Vault.Root.{id_try_from}
use context_os_mcp.Vault.Lexical.{validate_lexical_input, validate_windows_input}
use context_os_mcp.Vault.Resolve.{resolve_with_missing_suffix, climb, at_ancestor, push_all}
use context_os_mcp.Index.Service.{affected, push_ancestors, path_from_relative, is_excluded}
use context_os_mcp.Index.Service.Affected.{IsManaged}
use context_os_mcp.Index.Service.Sources.{HasSource}
use context_os_mcp.Index.Service.Reached.{IsDone, affected-IsReached}
use context_os_mcp.Examples.Server.{server}
use context_os_mcp.Examples.IndexService.{service, path_of}

abbrev ideas : List VaultPath
ideas = path_of (normal (codes "drafts") ∷ normal (codes "idea.md") ∷ []) ∷ []

abbrev above_ideas : List VaultPath
above_ideas = path_of (normal (codes "drafts") ∷ []) ∷ path_of [] ∷ []

ideas-affected : affected service {F = Unit {0}} server ideas [] ≡ ok above_ideas
unfolding affected push_ancestors path_from_relative is_excluded forward_slash_display
    Confine.try_from named_prefix resolve_plain finish build select split_once
    validate_lexical_input validate_windows_input resolve_with_missing_suffix climb at_ancestor
    push_all components join id_try_from Prelude.◌>>=◌
ideas-affected = refl

affected-IsReached_example :
    All (IsManaged service) above_ideas
    × All (IsDone service (Unit {0}) server above_ideas) ideas
    × All (HasSource service (Unit {0}) server ideas) above_ideas
affected-IsReached_example =
    affected-IsReached service (Unit {0}) server ideas ((tt, (tt, tt)), tt) ideas-affected
