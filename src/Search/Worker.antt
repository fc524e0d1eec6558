-- ===== src/Search/Worker.antt =====
-- The embedding worker (crates/contextos-search/src/embedding_worker.rs): `process_one`, `drain`,
-- `drain_until`, `shutdown`, `record_outcome` and `status`. No step of a drain queues a path, so
-- one more round than paths queued is enough fuel. `D` is a duration; the sum of a time and a
-- duration and the order of times are the time crate's.

use context_os_mcp.Prelude.{
  usize_max, Bool, List, Option, Text, [], if◌then◌else◌, length, ltb, none, some, suc, zero, ℕ,
  ◌+◌, ◌-◌, ◌^◌, ◌∷◌,
}
pub mod Drained
pub mod Budget
use context_os_mcp.Search.Queue.{QueueState, dequeue, close}
use context_os_mcp.Search.Embed.{
  EmbeddingPorts, PathEmbeddingOutcome, embedded, removed, failed, process_path,
}

pub record EmbeddingWorkerStatus (T : Type 0) : Type 0 where
  pub pending : ℕ
  pub processed : ℕ
  pub failed_count : ℕ
  pub last_processed_at : Option T

pub record EmbeddingWorker (W T : Type 0) : Type 0 where
  pub queue : QueueState
  pub stats : EmbeddingWorkerStatus T
  -- what the ports keep
  pub world : W

-- `usize::saturating_add(1)`
abbrev pub saturating_suc : ℕ → ℕ
saturating_suc n = if ltb n usize_max then n + 1 else usize_max

abbrev pub count_outcome :
    {T : Type 0} → PathEmbeddingOutcome → EmbeddingWorkerStatus T → EmbeddingWorkerStatus T
count_outcome (failed _ _) s = record s { failed_count = saturating_suc s.failed_count }
count_outcome (embedded _ _ _) s = record s { processed = saturating_suc s.processed }
count_outcome (removed _) s = record s { processed = saturating_suc s.processed }

module _ {W S V T : Type 0} (ports : EmbeddingPorts W S V T) where
  -- `EmbeddingWorker::status`
  unfoldable pub status : EmbeddingWorker W T → EmbeddingWorkerStatus T
  status w = record w.stats { pending = length w.queue.order }

  abbrev pub timed : PathEmbeddingOutcome → T × W → EmbeddingWorker W T → EmbeddingWorker W T
  timed outcome (now, world) w = record w {
    stats = count_outcome outcome (record w.stats { last_processed_at = some now });
    world = world;
  }

  -- `record_outcome`
  unfoldable pub record_outcome : PathEmbeddingOutcome → EmbeddingWorker W T → EmbeddingWorker W T
  record_outcome outcome w = timed outcome (ports.now w.world) w

  abbrev pub recorded :
      PathEmbeddingOutcome × W
      → EmbeddingWorker W T
      → Option PathEmbeddingOutcome × EmbeddingWorker W T
  recorded (outcome, world) w = (some outcome, record_outcome outcome (record w { world = world }))

  abbrev pub process_next :
      Option (Text × QueueState)
      → EmbeddingWorker W T
      → Option PathEmbeddingOutcome × EmbeddingWorker W T
  process_next none w = (none, w)
  process_next (some (path, queue)) w =
      recorded (process_path ports path w.world) (record w { queue = queue })

  -- `process_one`
  unfoldable pub process_one :
      EmbeddingWorker W T → Option PathEmbeddingOutcome × EmbeddingWorker W T
  process_one w = process_next (dequeue w.queue) w

  -- Nothing stands for a loop that is out of fuel.
  abbrev pub Drain : Type 0
  Drain = Option (List PathEmbeddingOutcome × EmbeddingWorker W T)

  abbrev pub pushed : PathEmbeddingOutcome → Drain → Drain
  pushed outcome none = none
  pushed outcome (some (outcomes, w)) = some (outcome ∷ outcomes, w)

  abbrev pub drain_on :
      Option PathEmbeddingOutcome × EmbeddingWorker W T → (EmbeddingWorker W T → Drain) → Drain
  drain_on (none, w) rest = some ([], w)
  drain_on (some outcome, w) rest = pushed outcome (rest w)

  unfoldable pub drain_loop : ℕ → EmbeddingWorker W T → Drain
  drain_loop zero w = none
  drain_loop (suc fuel) w = drain_on (process_one w) (λ v. drain_loop fuel v)

  -- `drain`
  unfoldable pub drain : EmbeddingWorker W T → Drain
  drain w = drain_loop (length w.queue.order + 1) w

  -- `shutdown`
  unfoldable pub shutdown : EmbeddingWorker W T → Drain
  unfolding close
  shutdown w = drain (record w { queue = close w.queue })

  module _ {D : Type 0} (later : T → D → T) (reached : T → T → Bool) where
    abbrev pub checked :
        T
        → PathEmbeddingOutcome
        → T × W
        → EmbeddingWorker W T
        → (EmbeddingWorker W T → Drain)
        → Drain
    checked deadline outcome (now, world) w rest =
        let next = pushed outcome (rest (record w { world = world })) in
        if reached now deadline then some (outcome ∷ [], record w { world = world }) else next

    abbrev pub drain_until_on :
        T
        → Option PathEmbeddingOutcome × EmbeddingWorker W T
        → (EmbeddingWorker W T → Drain)
        → Drain
    drain_until_on deadline (none, w) rest = some ([], w)
    drain_until_on deadline (some outcome, w) rest =
        checked deadline outcome (ports.now w.world) w rest

    unfoldable pub drain_until_loop : T → ℕ → EmbeddingWorker W T → Drain
    drain_until_loop deadline zero w = none
    drain_until_loop deadline (suc fuel) w =
        drain_until_on deadline (process_one w) (λ v. drain_until_loop deadline fuel v)

    abbrev pub until : D → T × W → EmbeddingWorker W T → Drain
    until budget (now, world) w =
        drain_until_loop (later now budget) (length w.queue.order + 1) (record w { world = world })

    -- `drain_until`
    unfoldable pub drain_until : D → EmbeddingWorker W T → Drain
    drain_until budget w = until budget (ports.now w.world) w
