-- ===== src/Vault/Resolve.antt =====
-- Resolution of a path whose last components may not exist yet: `resolve_with_missing_suffix`
-- (crates/contextos-core/src/path.rs). The path under inspection is held with its components
-- reversed, so that `Path::parent` is the tail and `Path::file_name` the head.
pub mod Longest
use context_os_mcp.Prelude.{Result, [], err, ok, reverse, ◌>>=◌, ◌∷◌}
use context_os_mcp.FilePath.{FilePath, normal, join}
use context_os_mcp.Host.{Host, Inspection, found, not_found, failed}
use context_os_mcp.Vault.Error.{PathError, outside_root, path_inspection, path_resolution}
use context_os_mcp.Vault.Root.{ok_or}

-- The last loop: `push` of every missing component.
unfoldable pub push_all : FilePath → FilePath → FilePath
push_all base [] = base
push_all base (component ∷ suffix) = push_all (join base (component ∷ [])) suffix

-- What follows an inspection; `climb` is the rest of the loop, at the parent.
unfoldable pub at_ancestor :
    Host → Inspection → FilePath → FilePath → Result PathError FilePath → Result PathError FilePath
at_ancestor host found ancestor suffix climb = do
  resolved ← ok_or (host.canonicalize ancestor) (path_resolution ancestor)
  ok (push_all resolved suffix)
at_ancestor host not_found ancestor suffix climb = climb
at_ancestor host failed ancestor suffix climb = err (path_inspection ancestor)

unfoldable pub climb : Host → FilePath → FilePath → FilePath → Result PathError FilePath
unfolding at_ancestor
climb host candidate (normal name ∷ up) suffix =
    let parent = climb host candidate up (normal name ∷ suffix) in
    at_ancestor host (host.symlink_metadata (reverse (normal name ∷ up)))
      (reverse (normal name ∷ up)) suffix parent
climb host candidate rev suffix =
    at_ancestor host (host.symlink_metadata (reverse rev)) (reverse rev) suffix
      (err (outside_root candidate))

unfoldable pub resolve_with_missing_suffix : Host → FilePath → Result PathError FilePath
unfolding climb
resolve_with_missing_suffix host candidate = climb host candidate (reverse candidate) []
