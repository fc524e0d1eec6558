-- ===== src/Search/Worker/Budget.antt =====
-- A drain with a budget makes progress and loses nothing.
use context_os_mcp.Prelude.{
  Bool, List, Option, [], ap, arith, false, if◌then◌else◌, length, none, refl, some, subst, suc,
  sym, true, zero, ℕ, ◌+◌, ◌<◌, ◌∷◌, ◌≡◌,
}
use context_os_mcp.Search.Embed.{EmbeddingPorts, PathEmbeddingOutcome}
use context_os_mcp.Search.Worker.{
  EmbeddingWorker, process_one, drain_until_on, drain_until_loop, drain_until, pushed,
}
use context_os_mcp.Search.Worker.Drained.{
  Handles, Handles-one, Handles-nothing, IsStep, process_one-IsStep,
}

module _ {W S V T D : Type 0} (ports : EmbeddingPorts W S V T) (later : T → D → T)
    (reached : T → T → Bool) where
  -- The loop ends after at least one path, if one was queued; the paths it did not get to stay.
  pub record Advances (w : EmbeddingWorker W T)
      (r : Option (List PathEmbeddingOutcome × EmbeddingWorker W T)) : Type 0 where
    pub outcomes : List PathEmbeddingOutcome
    pub final : EmbeddingWorker W T
    pub returns : r ≡ some (outcomes, final)
    pub handles : Handles ports w final outcomes
    pub progress : 0 < length w.queue.order → 0 < length outcomes

  one_more :
      (w v : EmbeddingWorker W T) (outcome : PathEmbeddingOutcome)
      (r : Option (List PathEmbeddingOutcome × EmbeddingWorker W T))
      → IsStep ports w (some outcome, v)
      → Advances v r
      → Advances w (pushed ports outcome r)
  one_more w v outcome r step rest = record {
    outcomes = outcome ∷ rest.outcomes;
    final = rest.final;
    returns = ap (pushed ports outcome) rest.returns;
    handles = Handles-one ports w v rest.final outcome rest.outcomes step rest.handles;
    progress = λ _. omega arith;
  }

  checked-Advances :
      (stop : Bool) (w v : EmbeddingWorker W T) (outcome : PathEmbeddingOutcome)
      (r : Option (List PathEmbeddingOutcome × EmbeddingWorker W T))
      → IsStep ports w (some outcome, v)
      → Advances v r
      → Advances w (if stop then some (outcome ∷ [], v) else pushed ports outcome r)
  checked-Advances true w v outcome r step rest = record {
    outcomes = outcome ∷ [];
    final = v;
    returns = refl;
    handles = Handles-one ports w v v outcome [] step (Handles-nothing ports v);
    progress = λ _. omega arith;
  }
  checked-Advances false w v outcome r step rest = one_more w v outcome r step rest

  drain_until_on-Advances :
      (deadline : T) (fuel : ℕ) (w : EmbeddingWorker W T)
      (next : Option PathEmbeddingOutcome × EmbeddingWorker W T)
      → ((v : EmbeddingWorker W T)
          → length v.queue.order < fuel
          → Advances v (drain_until_loop ports later reached deadline fuel v))
      → length w.queue.order < suc fuel
      → IsStep ports w next
      → Advances w (
          drain_until_on ports later reached deadline next
            (λ v. drain_until_loop ports later reached deadline fuel v))
  drain_until_on-Advances deadline fuel w (none, v) loop h (empty, same) = record {
    outcomes = [];
    final = v;
    returns = refl;
    handles = subst (λ u. Handles ports w u []) (sym same) (Handles-nothing ports w);
    progress = λ some_queued. omega (arith, some_queued, ap length empty);
  }
  drain_until_on-Advances deadline fuel w (some outcome, v) loop h step =
      let (now, world) = ports.now v.world in
      let u = record v { world = world } in
      checked-Advances (reached now deadline) w u outcome
        (drain_until_loop ports later reached deadline fuel u) step
        (loop u (omega (arith, h, ap length step.0)))

  drain_until_loop-Advances :
      (deadline : T) (fuel : ℕ) (w : EmbeddingWorker W T)
      → length w.queue.order < fuel
      → Advances w (drain_until_loop ports later reached deadline fuel w)
  unfolding drain_until_loop
  drain_until_loop-Advances deadline zero w h = absurd (omega (arith, h))
  drain_until_loop-Advances deadline (suc fuel) w h =
      drain_until_on-Advances deadline fuel w (process_one ports w)
        (drain_until_loop-Advances deadline fuel) h (process_one-IsStep ports w)

  -- Whatever the clock says, `drain_until` ends; the paths of its outcomes followed by those still
  -- queued are the paths that were queued, and if one was queued, at least one has an outcome.
  drain_until-Advances :
      (budget : D) (w : EmbeddingWorker W T) → Advances w (drain_until ports later reached budget w)
  unfolding drain_until
  drain_until-Advances budget w =
      let (now, world) = ports.now w.world in
      let end =
        drain_until_loop-Advances (later now budget) (length w.queue.order + 1)
          (record w { world = world }) (omega arith) in
      record {
        outcomes = end.outcomes;
        final = end.final;
        returns = end.returns;
        handles = record {
          taken = end.handles.taken;
          same_flag = end.handles.same_flag;
          counted = end.handles.counted;
        };
        progress = end.progress;
      }
