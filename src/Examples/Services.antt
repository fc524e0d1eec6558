-- ===== src/Examples/Services.antt =====
-- A pipeline over a counter for the world, and services that answer in each way.
use context_os_mcp.Prelude.{
  [], bytes, codes, err, false, length, none, ok, refl, true, ℕ, ◌++◌, ◌+◌, ◌∷◌, ◌≡◌,
}
use context_os_mcp.FilePath.{normal}
use context_os_mcp.Operation.{
  Origin, tool, internal, create, OperationEvent, OperationWarning, WriteMutation, WriteOutcome,
}
use context_os_mcp.Vault.Confine.{VaultPath}
use context_os_mcp.Pipeline.{AppliesMutations, RoutedWritePipeline}
use context_os_mcp.Pipeline.Request.{write_request, written, persist, perform}
use context_os_mcp.Pipeline.Announce.{Succeeds, success_announces}
use context_os_mcp.Routing.{route}
use context_os_mcp.Routing.Deliveries.{Answers, recording, answers, deliveries, route-deliveries}
use context_os_mcp.Examples.Server.{notes}

abbrev pub todo : VaultPath
todo = record {
  root = record { value = 0 };
  relative = normal (codes "todo.md") ∷ [];
  absolute = notes ++ normal (codes "todo.md") ∷ [];
}

abbrev pub full : OperationWarning
full = record { code = codes "full"; message = codes "no space" }

-- Every mutation but a deletion succeeds; each call is counted.
abbrev adapter : AppliesMutations ℕ ℕ
adapter = record {
  write = λ m w. (
    ok (record {
      path = m.path;
      bytes_written = length (bytes m.content);
      content_hash = record { hex = [] };
      created = true;
    }),
    w + 1,
  );
  create_directory = λ m w. (ok (record { path = m.path; created = false }), w + 1);
  move_path = λ m w. (ok (record { source = m.source; destination = m.destination }), w + 1);
  delete = λ m w. (err 13, w + 1);
  append = λ m w. (
    ok (record { path = m.path; bytes_appended = length (bytes m.content); created = false }),
    w + 1,
  );
}

abbrev routed : RoutedWritePipeline ℕ ℕ ℕ
routed = record {
  pipeline = record { adapter = adapter; now = λ w. (1000 + w, w) };
  route = λ event w. (full ∷ [], w + 1);
}

abbrev save : WriteMutation
save = record {
  path = todo;
  content = codes "milk";
  expected_hash = none;
  force = false;
  origin = tool (codes "vault_write");
}

abbrev saved : WriteOutcome
saved = record {
  path = todo;
  bytes_written = 4;
  content_hash = record { hex = [] };
  created = true;
}

save-persist : persist adapter (write_request save) 0 ≡ (ok (written saved), 1)
unfolding persist
save-persist = refl

success_announces_example :
    Succeeds routed (write_request save) (written saved) 1 (perform routed (write_request save) 0)
success_announces_example =
    success_announces routed (write_request save) 0 1 (written saved) save-persist

abbrev event_by : Origin → OperationEvent ℕ
event_by origin = record {
  kind = create;
  paths = todo ∷ [];
  origin = origin;
  summary = codes "Created todo.md (4 bytes)";
  at = 1001;
}

-- The index and the log write an event each, and the search fails.
abbrev busy : Answers ℕ
busy = record {
  reconciled = λ _. ok (event_by (internal (codes "index")) ∷ []);
  logged = λ _. ok (event_by (internal (codes "oplog")) ∷ []);
  staged = λ _. ok tt;
  updated = λ _. err full;
}

route-deliveries_example : route (recording busy) (event_by (tool (codes "vault_write"))) [] ≡ (
  answers busy
      (deliveries busy (tool (codes "vault_write")) (event_by (tool (codes "vault_write")))),
  [] ++ deliveries busy (tool (codes "vault_write")) (event_by (tool (codes "vault_write"))),
)
route-deliveries_example = route-deliveries busy (event_by (tool (codes "vault_write"))) []

three_warnings :
    answers busy (deliveries busy (tool []) (event_by (tool []))) ≡ full ∷ full ∷ full ∷ []
three_warnings = refl
