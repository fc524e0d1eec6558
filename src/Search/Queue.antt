-- ===== src/Search/Queue.antt =====
-- The queue of the embedding worker (crates/contextos-search/src/embedding_worker.rs): `enqueue`,
-- `dequeue` and the closing by `shutdown`. A `BTreeSet` of paths is a list of them.
pub mod Fifo
use context_os_mcp.Prelude.{
  Bool, List, Option, Text, [], contains, false, if◌then◌else◌, keep, list_eq, nat_eq, none, not,
  some, true, ◌++◌, ◌==◌, ◌∷◌,
}

pub record QueueState : Type 0 where
  pub order : List Text
  pub members : List Text
  pub closed : Bool

-- `QueueState::default`
abbrev pub empty_queue : QueueState
empty_queue = record { order = []; members = []; closed = false }

-- `BTreeSet::insert` says whether the path is new; `BTreeSet::remove`.
abbrev pub insert_new : Text → List Text → Bool × List Text
insert_new path members = if contains path members then (false, members) else (true, path ∷ members)

abbrev pub without : Text → List Text → List Text
without path members = keep (λ p. not (path == p)) members

abbrev pub push_if : Bool × List Text → Text → QueueState → QueueState
push_if (true, members) path q = record q { order = q.order ++ path ∷ []; members = members }
push_if (false, members) path q = record q { members = members }

-- `EmbeddingWorker::enqueue`
unfoldable pub enqueue : Text → QueueState → QueueState
enqueue path q = if q.closed then q else push_if (insert_new path q.members) path q

-- `EmbeddingWorker::dequeue`
abbrev pub dequeue_from : List Text → QueueState → Option (Text × QueueState)
dequeue_from [] q = none
dequeue_from (path ∷ rest) q =
    some (path, record q { order = rest; members = without path q.members })

unfoldable pub dequeue : QueueState → Option (Text × QueueState)
dequeue q = dequeue_from q.order q

-- The first statement of `EmbeddingWorker::shutdown`
unfoldable pub close : QueueState → QueueState
close q = record q { closed = true }
