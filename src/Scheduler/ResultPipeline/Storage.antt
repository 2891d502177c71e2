-- ===== src/Scheduler/ResultPipeline/Storage.antt =====
-- result_pipeline.go: every metric of a batch is written.
use rayavriti_netmonitor.Common.{
  ℕ, Bool, List, [], ◌∷◌, ◌++◌, map, Option, none, some, ◌≡◌, refl, ap, sym, arith,
}
use mathlib.Core.List.{append-nil, append_assoc}
use rayavriti_netmonitor.Scheduler.Types.{PollResult}
use rayavriti_netmonitor.Scheduler.ResultPipeline.Batch.{
  Metric, Effect, pushed, recorded, batch_recorded, record_samples, update_statuses, Equipment,
  build_metric, broadcasts, broadcast, push_all, write_nonempty, write_metrics, samples,
  unless_empty, neighbor_updates, latest_statuses, alerts, process_batch,
}

module _ {F : Type 0} where
  -- The metrics of one effect's write that is not known to fail: to the buffer, singly, or as a batch.
  abbrev stored_by : Effect F → List (Metric F)
  stored_by (pushed m) = m ∷ []
  stored_by (recorded m) = m ∷ []
  stored_by (batch_recorded ms) = ms
  stored_by _ = []

  abbrev pub stored : List (Effect F) → List (Metric F)
  stored [] = []
  stored (e ∷ es) = stored_by e ++ stored es

  stored-append : (es fs : List (Effect F)) → stored (es ++ fs) ≡ stored es ++ stored fs
  stored-append [] fs = refl
  stored-append (e ∷ es) fs =
      rw (stored-append es fs) (sym (append_assoc (stored_by e) (stored es) (stored fs)))

  stored-record_all : (ms : List (Metric F)) → stored (map recorded ms) ≡ ms
  stored-record_all [] = refl
  stored-record_all (m ∷ ms) = ap (◌∷◌ m) (stored-record_all ms)

  stored-push_all : (push : Metric F → Bool) (ms : List (Metric F)) → stored (push_all push ms) ≡ ms
  unfolding push_all
  stored-push_all push [] = refl
  stored-push_all push (m ∷ ms) = ground (arith, stored-push_all push ms)

  stored-write_nonempty :
      (b : Option (Metric F → Bool)) (i : Option (List (Metric F) → Bool)) (ms : List (Metric F))
      → stored (write_nonempty b i ms) ≡ ms
  unfolding write_nonempty
  stored-write_nonempty (some push) i ms = stored-push_all push ms
  stored-write_nonempty none (some insert_batch) ms =
      ground (arith, append-nil ms, stored-record_all ms)
  stored-write_nonempty none none ms = stored-record_all ms

  stored-write_metrics : (e : Equipment F) (ms : List (Metric F)) → stored (write_metrics e ms) ≡ ms
  unfolding write_metrics
  stored-write_metrics e [] = refl
  stored-write_metrics e (m ∷ ms) = stored-write_nonempty e.buffer e.batch_insert (m ∷ ms)

  stored-broadcasts :
      (hub : Bool) (now : ℕ) (batch : List (PollResult F)) → stored (broadcasts hub now batch) ≡ []
  unfolding broadcasts broadcast
  stored-broadcasts hub now [] = refl
  stored-broadcasts hub now (pr ∷ batch) = ground (arith, stored-broadcasts hub now batch)

  stored-unless_empty {ℓ} :
      {A : Type ℓ} (xs : List A) (e : Effect F) → stored_by e ≡ [] → stored (unless_empty xs e) ≡ []
  stored-unless_empty [] e h = refl
  stored-unless_empty (x ∷ xs) e h = rw h

  stored-neighbor_updates : (batch : List (PollResult F)) → stored (neighbor_updates batch) ≡ []
  unfolding neighbor_updates
  stored-neighbor_updates [] = refl
  stored-neighbor_updates (pr ∷ batch) = ground (arith, stored-neighbor_updates batch)

  stored-alerts :
      (a : Bool) (now : ℕ) (batch : List (PollResult F)) → stored (alerts a now batch) ≡ []
  unfolding alerts
  stored-alerts a now [] = refl
  stored-alerts a now (pr ∷ batch) = ground (arith, stored-alerts a now batch)

  -- However the pipeline is equipped, and whichever pushes and batch inserts fail, the metrics that a
  -- batch hands to a write not known to fail (a push or a batch insert that succeeds, or a single
  -- insert, whose result is ignored) are one for each of its results, in their order.
  pub stored-process_batch :
      (e : Equipment F) (now : ℕ) (batch : List (PollResult F))
      → stored (process_batch e now batch) ≡ map (build_metric now) batch
  unfolding process_batch
  stored-process_batch e now batch = simp (
    stored-append,
    stored-broadcasts,
    stored-write_metrics,
    stored-neighbor_updates,
    stored-alerts,
    stored-unless_empty (samples batch) (record_samples (samples batch)) refl,
    stored-unless_empty (latest_statuses batch) (update_statuses (latest_statuses batch)) refl,
    append-nil,
  )
