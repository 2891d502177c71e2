-- ===== src/Scheduler/ResultPipeline/Examples.antt =====
-- Tests of the model of result_pipeline.go, and its theorems at concrete inputs.
use rayavriti_netmonitor.Common.{
  ℕ, ◌≤◌, List, [], ◌∷◌, ◌++◌, map, none, some, String, ◌≡◌, refl, true, false, ltb, length, str_eq,
}
use mathlib.Core.List.{Memᴰ}
use rayavriti_netmonitor.Common.Int.{pos}
use rayavriti_netmonitor.Common.Assoc.{lookup, nat_eq}
use rayavriti_netmonitor.Scheduler.Types.{PollResult}
use rayavriti_netmonitor.Scheduler.ResultPipeline.Batch.{
  Equipment, build_metric, process_batch, latest_from, latest_statuses,
}
use rayavriti_netmonitor.Scheduler.ResultPipeline.Storage.{stored, stored-process_batch}
use rayavriti_netmonitor.Scheduler.ResultPipeline.Statuses.{rank, latest_from_lem}
use rayavriti_netmonitor.Scheduler.ResultPipeline.Run.{
  Event, submitted, received, ticked, new_result_pipeline, run, stop, finish,
}
use rayavriti_netmonitor.Scheduler.ResultPipeline.Delivery.{
  flatten, accepted, accepted_late, stop-run_lem,
}

abbrev result : ℕ → String → ℕ → PollResult ℕ
result id status finished = record {
  device = record {
    id = id;
    name = "core";
    protocol = "ping";
    device_category = "switch";
    interval = 60;
    status = "up";
  };
  collect_result = none;
  status = status;
  response_ms = 4;
  error = none;
  started_at = 0;
  finished_at = some finished;
}

-- Device 1 goes down and comes back; a late result of it has no status.
abbrev polled : List (PollResult ℕ)
polled = result 1 "down" 10 ∷ result 2 "up" 11 ∷ result 1 "up" 12 ∷ result 1 "" 13 ∷ []

polled_statuses : latest_statuses polled ≡ (1, "up") ∷ (2, "up") ∷ []
unfolding latest_statuses latest_from
polled_statuses = refl

-- A buffer that refuses the metrics of device 2.
abbrev buffered : Equipment ℕ
buffered = record {
  hub = true;
  alert_engine = true;
  buffer = some (λ m. ltb m.device_id 2);
  batch_insert = none;
}

stored-process_batch_example :
    stored (process_batch buffered 20 polled) ≡ map (build_metric 20) polled
stored-process_batch_example = stored-process_batch buffered 20 polled

latest_from_lem_example :
    (w : PollResult ℕ) × (lookup 1 (latest_from polled []) ≡ some w)
    × (11 ≤ rank w.finished_at)
    × Memᴰ w polled
    × (w.device.id ≡ 1)
    × (str_eq w.status "" ≡ false)
latest_from_lem_example = latest_from_lem (result 1 "down" 10) polled (Memᴰ.head refl) refl

-- With batches of two: the second receipt fills a batch, the tick flushes another.
abbrev events : List (Event ℕ)
events =
    submitted (result 1 "down" 10)
    ∷ submitted (result 2 "up" 11)
    ∷ received
    ∷ received
    ∷ submitted (result 1 "up" 12)
    ∷ received
    ∷ ticked
    ∷ submitted (result 3 "up" 14)
    ∷ []

events_batches : map length (run events (new_result_pipeline (pos 2))).processed ≡ 2 ∷ 1 ∷ []
unfolding run new_result_pipeline
events_batches = refl

stop-run_lem_example :
    flatten (stop polled (run events (new_result_pipeline (pos 2)))).processed
    ≡ accepted events (new_result_pipeline (pos 2))
      ++ accepted_late polled (finish (run events (new_result_pipeline (pos 2))))
stop-run_lem_example = stop-run_lem (pos 2) events polled
