-- ===== src/Search/Worker/Drained.antt =====
-- A drain ends, with one outcome for each queued path, in the order of the queue.
use context_os_mcp.Search.Error.{SearchError}
use context_os_mcp.Prelude.{
  usize_max, List, Option, Result, Text, [], ap, append-nil, arith, err, length, lt→ltb, map, none,
  ok, refl, some, subst, suc, sym, zero, ℕ, ◌++◌, ◌+◌, ◌<◌, ◌∙◌, ◌∷◌, ◌≡◌, ◌≤◌,
}
use context_os_mcp.Search.Queue.{enqueue, dequeue, dequeue_from, close}
use context_os_mcp.Search.Embed.{
  EmbeddingPorts, PathEmbeddingOutcome, embedded, removed, failed, process_path, process_content,
  embed_path, outcome_of, removal_of, reported,
}
use context_os_mcp.Search.Worker.{
  EmbeddingWorker, EmbeddingWorkerStatus, saturating_suc, count_outcome, record_outcome,
  process_one, process_next, drain_loop, drain_on, drain, shutdown,
}

abbrev pub outcome_path : PathEmbeddingOutcome → Text
outcome_path (embedded path _ _) = path
outcome_path (removed path) = path
outcome_path (failed path _) = path

-- The paths counted so far, whatever became of them.
abbrev pub handled : {T : Type 0} → EmbeddingWorkerStatus T → ℕ
handled s = s.processed + s.failed_count

saturating_suc_lem : (n : ℕ) → n < usize_max → saturating_suc n ≡ n + 1
saturating_suc_lem n h = rw (lt→ltb n usize_max h) refl

handled-count_outcome :
    {T : Type 0} (o : PathEmbeddingOutcome) (s : EmbeddingWorkerStatus T)
    → handled s < usize_max
    → handled (count_outcome o s) ≡ handled s + 1
handled-count_outcome (embedded _ _ _) s h =
    omega (arith, h, saturating_suc_lem s.processed (omega (arith, h)))
handled-count_outcome (removed _) s h =
    omega (arith, h, saturating_suc_lem s.processed (omega (arith, h)))
handled-count_outcome (failed _ _) s h =
    omega (arith, h, saturating_suc_lem s.failed_count (omega (arith, h)))

module _ {W S V T : Type 0} (ports : EmbeddingPorts W S V T) where
  removal-path :
      (path : Text) (r : Result (SearchError S) (Unit {0}) × W)
      → outcome_path (reported ports (removal_of ports path) r).0 ≡ path
  removal-path path (ok _, w) = refl
  removal-path path (err _, w) = refl

  embedding-path :
      (path : Text) (r : Result (SearchError S) (ℕ × ℕ) × W)
      → outcome_path (reported ports (outcome_of ports path) r).0 ≡ path
  embedding-path path (ok _, w) = refl
  embedding-path path (err _, w) = refl

  process_content-path :
      (path : Text) (r : Result (SearchError S) (Option Text) × W)
      → outcome_path (process_content ports path r).0 ≡ path
  process_content-path path (ok none, w) = removal-path path (ports.delete path w)
  process_content-path path (ok (some content), w) =
      embedding-path path (embed_path ports path content w)
  process_content-path path (err _, w) = refl

  process_path-path : (path : Text) (w : W) → outcome_path (process_path ports path w).0 ≡ path
  unfolding process_path
  process_path-path path w = process_content-path path (ports.read path w)

  -- From `w` to `v` these outcomes were made.
  pub record Handles (w v : EmbeddingWorker W T) (outcomes : List PathEmbeddingOutcome)
      : Type 0 where
    pub taken : map outcome_path outcomes ++ v.queue.order ≡ w.queue.order
    pub same_flag : v.queue.closed ≡ w.queue.closed
    pub counted :
        handled w.stats + length w.queue.order ≤ usize_max
        → handled v.stats ≡ handled w.stats + length outcomes

  -- What one call of `process_one` does.
  abbrev pub IsStep :
      EmbeddingWorker W T → Option PathEmbeddingOutcome × EmbeddingWorker W T → Type 0
  IsStep w (none, v) = (w.queue.order ≡ []) × (v ≡ w)
  IsStep w (some outcome, v) =
      (w.queue.order ≡ outcome_path outcome ∷ v.queue.order)
      × (v.queue.closed ≡ w.queue.closed)
      × (handled w.stats < usize_max → handled v.stats ≡ handled w.stats + 1)

  process_next-IsStep :
      (w : EmbeddingWorker W T) (order : List Text)
      → w.queue.order ≡ order
      → IsStep w (process_next ports (dequeue_from order w.queue) w)
  unfolding record_outcome
  process_next-IsStep w [] same = (same, refl)
  process_next-IsStep w (path ∷ rest) same = (
    same ∙ ap (λ p. p ∷ rest) (sym (process_path-path path w.world)),
    refl,
    handled-count_outcome (process_path ports path w.world).0
        (record w.stats { last_processed_at = _ }),
  )

  pub process_one-IsStep : (w : EmbeddingWorker W T) → IsStep w (process_one ports w)
  unfolding process_one dequeue
  process_one-IsStep w = process_next-IsStep w w.queue.order refl

  pub Handles-nothing : (w : EmbeddingWorker W T) → Handles w w []
  Handles-nothing w = record { taken = refl; same_flag = refl; counted = λ h. omega arith }

  pub Handles-one :
      (w v u : EmbeddingWorker W T) (outcome : PathEmbeddingOutcome)
      (outcomes : List PathEmbeddingOutcome)
      → IsStep w (some outcome, v)
      → Handles v u outcomes
      → Handles w u (outcome ∷ outcomes)
  Handles-one w v u outcome outcomes (order, flag, count) rest = record {
    taken = ap (λ ps. outcome_path outcome ∷ ps) rest.taken ∙ sym order;
    same_flag = rest.same_flag ∙ flag;
    counted = λ h.
        let l = ap length order in
        omega (
          arith,
          h,
          l,
          count (omega (arith, h, l)),
          rest.counted (omega (arith, h, l, count (omega (arith, h, l)))),
        );
  }

  -- The loop of `drain` ends with an empty queue.
  pub record Ends (w : EmbeddingWorker W T)
      (r : Option (List PathEmbeddingOutcome × EmbeddingWorker W T)) : Type 0 where
    pub outcomes : List PathEmbeddingOutcome
    pub final : EmbeddingWorker W T
    pub returns : r ≡ some (outcomes, final)
    pub handles : Handles w final outcomes
    pub all_done : final.queue.order ≡ []

  drain_on-Ends :
      (fuel : ℕ) (w : EmbeddingWorker W T)
      (next : Option PathEmbeddingOutcome × EmbeddingWorker W T)
      → ((v : EmbeddingWorker W T) → length v.queue.order < fuel → Ends v (drain_loop ports fuel v))
      → length w.queue.order < suc fuel
      → IsStep w next
      → Ends w (drain_on ports next (λ v. drain_loop ports fuel v))
  drain_on-Ends fuel w (none, v) loop h (empty, same) = record {
    outcomes = [];
    final = v;
    returns = refl;
    handles = subst (λ u. Handles w u []) (sym same) (Handles-nothing w);
    all_done = ap (λ u. u.queue.order) same ∙ empty;
  }
  drain_on-Ends fuel w (some outcome, v) loop h step =
      let rest = loop v (omega (arith, h, ap length step.0)) in
      record {
        outcomes = outcome ∷ rest.outcomes;
        final = rest.final;
        returns = rw rest.returns refl;
        handles = Handles-one w v rest.final outcome rest.outcomes step rest.handles;
        all_done = rest.all_done;
      }

  drain_loop-Ends :
      (fuel : ℕ) (w : EmbeddingWorker W T)
      → length w.queue.order < fuel
      → Ends w (drain_loop ports fuel w)
  unfolding drain_loop
  drain_loop-Ends zero w h = absurd (omega (arith, h))
  drain_loop-Ends (suc fuel) w h =
      drain_on-Ends fuel w (process_one ports w) (drain_loop-Ends fuel) h (process_one-IsStep w)

  -- `drain` ends. It makes one outcome for each queued path, in the order of the queue, whatever
  -- the outcomes are, and leaves the queue empty, and open or closed as it was; as long as the
  -- counters do not saturate, they grow by the number of outcomes.
  pub drain-Ends : (w : EmbeddingWorker W T) → Ends w (drain ports w)
  unfolding drain
  drain-Ends w = drain_loop-Ends (length w.queue.order + 1) w (omega arith)

  -- `shutdown` ends with an outcome for every path that was queued, and with an empty queue that
  -- no later signal fills.
  pub shutdown_completes :
      (w : EmbeddingWorker W T)
      → (outcomes : List PathEmbeddingOutcome) × (v : EmbeddingWorker W T) × (shutdown ports w
          ≡ some (outcomes, v))
        × (map outcome_path outcomes ≡ w.queue.order)
        × ((path : Text) → (enqueue path v.queue).order ≡ [])
  unfolding shutdown close enqueue
  shutdown_completes w =
      let end = drain-Ends (record w { queue = close w.queue }) in
      (
        end.outcomes,
        end.final,
        end.returns,
        sym (append-nil _)
            ∙ ap (λ o. map outcome_path end.outcomes ++ o) (sym end.all_done)
            ∙ end.handles.taken,
        λ path. rw end.handles.same_flag end.all_done,
      )
