-- ===== src/Scheduler/ResultPipeline/Batch.antt =====
-- result_pipeline.go: what is done with one batch. The database, the buffer, the hub and the alert
-- engine are outside: an action on one of them is an effect, and what they answer is a parameter.
-- The clock is read once for a batch; the reading is used only for results without a time.
use rayavriti_netmonitor.Common.{
  ℕ, Bool, true, false, not, ◌&&◌, List, [], ◌∷◌, ◌++◌, map, Option, none, some, String, str_eq,
  ltb, if◌then◌else◌,
}
use rayavriti_netmonitor.Common.Assoc.{lookup, insert, nat_eq}
use rayavriti_netmonitor.Scheduler.Types.{Device, PollResult, CollectResult}

pub record Metric (F : Type 0) : Type 0 where
  pub device_id : ℕ
  pub device_name : String
  pub protocol : String
  pub timestamp : ℕ
  pub status : String
  pub response_time : Option F
  pub packet_loss : Option F
  pub cpu_usage : Option F
  pub memory_usage : Option F
  pub bandwidth : Option F
  pub details : Option F

pub data Effect (F : Type 0) : Type 0 where
  broadcast_metric : Metric F → Effect F
  broadcast_status : ℕ → String → Effect F
  push_failed : Metric F → Effect F
  pushed : Metric F → Effect F
  recorded : Metric F → Effect F
  batch_failed : List (Metric F) → Effect F
  batch_recorded : List (Metric F) → Effect F
  record_samples : List F → Effect F
  replace_neighbors : ℕ → List F → Effect F
  update_statuses : List (ℕ × String) → Effect F
  process_metric : Device → Metric F → String → Effect F

-- How the pipeline is equipped: a hub and an alert engine or not; a buffer, with whether a push
-- succeeds; a database that inserts batches, with whether that succeeds.
pub record Equipment (F : Type 0) : Type 0 where
  pub hub : Bool
  pub alert_engine : Bool
  pub buffer : Option (Metric F → Bool)
  pub batch_insert : Option (List (Metric F) → Bool)

abbrev pub time_or_now : ℕ → Option ℕ → ℕ
time_or_now now none = now
time_or_now now (some t) = t

-- `a.After(b)`, where the zero time comes before all others.
abbrev pub after : Option ℕ → Option ℕ → Bool
after none b = false
after (some t) none = true
after (some t) (some u) = ltb u t

module _ {F : Type 0} where
  -- The measured part of a metric, from the collector's result or else from the poll's duration.
  abbrev pub fill : PollResult F → Option (CollectResult F) → Metric F → Metric F
  fill pr (some c) m = record m {
    response_time = c.response_time;
    packet_loss = c.packet_loss;
    cpu_usage = c.cpu_usage;
    memory_usage = c.memory_usage;
    bandwidth = c.bandwidth;
    details = c.details;
  }
  fill pr none m = record m { response_time = some pr.response_ms }

  unfoldable pub build_metric : ℕ → PollResult F → Metric F
  build_metric now pr = fill pr pr.collect_result (record {
    device_id = pr.device.id;
    device_name = pr.device.name;
    protocol = pr.device.protocol;
    timestamp = time_or_now now pr.finished_at;
    status = if str_eq pr.status "" then pr.device.status else pr.status;
    response_time = none;
    packet_loss = none;
    cpu_usage = none;
    memory_usage = none;
    bandwidth = none;
    details = none;
  })

  unfoldable pub broadcast : PollResult F → Metric F → List (Effect F)
  broadcast pr m =
      broadcast_metric m
      ∷ (if not (str_eq pr.device.status pr.status) && not (str_eq pr.status "")
          then broadcast_status pr.device.id pr.status ∷ []
          else [])

  unfoldable pub broadcasts : Bool → ℕ → List (PollResult F) → List (Effect F)
  unfolding broadcast build_metric
  broadcasts hub now [] = []
  broadcasts hub now (pr ∷ batch) =
      let rest = broadcasts hub now batch in
      if hub then broadcast pr (build_metric now pr) ++ rest else rest

  unfoldable pub push_all : (Metric F → Bool) → List (Metric F) → List (Effect F)
  push_all push [] = []
  push_all push (m ∷ ms) =
      let rest = push_all push ms in
      if push m then pushed m ∷ rest else push_failed m ∷ recorded m ∷ rest

  abbrev pub record_all : List (Metric F) → List (Effect F)
  record_all ms = map recorded ms

  -- The way to store a batch of metrics that is not empty.
  unfoldable pub write_nonempty :
      Option (Metric F → Bool) → Option (List (Metric F) → Bool) → List (Metric F) → List (Effect F)
  unfolding push_all
  write_nonempty (some push) b ms = push_all push ms
  write_nonempty none (some insert_batch) ms =
      if insert_batch ms then batch_recorded ms ∷ [] else batch_failed ms ∷ record_all ms
  write_nonempty none none ms = record_all ms

  unfoldable pub write_metrics : Equipment F → List (Metric F) → List (Effect F)
  unfolding write_nonempty
  write_metrics e [] = []
  write_metrics e (m ∷ ms) = write_nonempty e.buffer e.batch_insert (m ∷ ms)

  abbrev pub interfaces_of : Option (CollectResult F) → List F
  interfaces_of none = []
  interfaces_of (some c) = c.interfaces

  unfoldable pub samples : List (PollResult F) → List F
  samples [] = []
  samples (pr ∷ batch) = interfaces_of pr.collect_result ++ samples batch

  abbrev pub unless_empty {ℓ} : {A : Type ℓ} → List A → Effect F → List (Effect F)
  unless_empty [] e = []
  unless_empty (x ∷ xs) e = e ∷ []

  abbrev pub neighbors_of : ℕ → Option (CollectResult F) → List (Effect F)
  neighbors_of id none = []
  neighbors_of id (some c) =
      if c.neighbors_collected then replace_neighbors id c.neighbors ∷ [] else []

  unfoldable pub neighbor_updates : List (PollResult F) → List (Effect F)
  neighbor_updates [] = []
  neighbor_updates (pr ∷ batch) =
      neighbors_of pr.device.id pr.collect_result ++ neighbor_updates batch

  abbrev pub supersedes : PollResult F → Option (PollResult F) → Bool
  supersedes pr none = true
  supersedes pr (some prev) = after pr.finished_at prev.finished_at

  unfoldable pub note_latest : PollResult F → List (ℕ × PollResult F) → List (ℕ × PollResult F)
  note_latest pr latest =
      if not (str_eq pr.status "") && supersedes pr (lookup pr.device.id latest)
      then insert pr.device.id pr latest
      else latest

  -- The latest result with a status of each device; of two that finished together, the first.
  unfoldable pub latest_from :
      List (PollResult F) → List (ℕ × PollResult F) → List (ℕ × PollResult F)
  latest_from [] latest = latest
  latest_from (pr ∷ batch) latest = latest_from batch (note_latest pr latest)

  unfoldable pub latest_statuses : List (PollResult F) → List (ℕ × String)
  unfolding latest_from note_latest
  latest_statuses batch = map (λ b. (b.0, b.1.status)) (latest_from batch [])

  unfoldable pub alerts : Bool → ℕ → List (PollResult F) → List (Effect F)
  unfolding build_metric
  alerts alert_engine now [] = []
  alerts alert_engine now (pr ∷ batch) =
      let rest = alerts alert_engine now batch in
      if alert_engine
      then process_metric pr.device (build_metric now pr) pr.device.status ∷ rest
      else rest

  unfoldable pub process_batch : Equipment F → ℕ → List (PollResult F) → List (Effect F)
  unfolding broadcasts write_metrics samples neighbor_updates latest_statuses alerts
  process_batch e now batch =
      broadcasts e.hub now batch
      ++ (write_metrics e (map (build_metric now) batch)
          ++ (unless_empty (samples batch) (record_samples (samples batch))
              ++ (neighbor_updates batch
                  ++ (unless_empty (latest_statuses batch) (update_statuses (latest_statuses batch))
                      ++ alerts e.alert_engine now batch))))
