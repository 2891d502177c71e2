-- ===== src/Engine/System/Runs.antt =====
-- The whole system over any sequence of events: one active alert for a rule and a device, and one
-- notification for an alert.
use rayavriti_netmonitor.Common.{
  ℕ, ◌+◌, ◌≤◌, ◌≡◌, refl, Bool, not, ◌==◌, String, List, [], ◌∷◌, count_if, count_if-append, arith,
  leb, Bool-cases, inl, inr,
}
use rayavriti_netmonitor.Engine.Types.{Alert, ConditionResult}
use rayavriti_netmonitor.Engine.Conditions.{Floats}
use rayavriti_netmonitor.Engine.Store.{
  rivals, create_alert, update_alert_status, delete_alert, with_status, is_unique_among,
}
use rayavriti_netmonitor.Engine.Effects.{Wiring, NotificationJob}
use rayavriti_netmonitor.Engine.Log.{log_of}
use rayavriti_netmonitor.Engine.Log.Refinement.{
  process_metric-LogSteps, evaluate_absence_conditions-LogSteps,
}
use rayavriti_netmonitor.Engine.Log.Invariants.{
  IsUnique, is_job_of, IsOnce, opened-IsUnique, is_unique_among-IsUnique, LogSteps-IsUnique,
  LogSteps-IsOnce, select-IsUnique,
}
use rayavriti_netmonitor.Engine.System.{
  System, Event, metric_arrived, absence_ticked, alert_created, status_updated, alert_acknowledged,
  alert_resolved, alert_deleted, job_taken, normalized, set_status, store_created, take_job, step,
  run,
}

module _ {F : Type 0} where
  -- What holds of the system at all times.
  abbrev pub Invariant : System F → Type 0
  Invariant s = IsUnique s.engine.store.alerts × IsOnce s.taken (log_of s.engine)

  set_status-Invariant :
      (id : ℕ) (status : String) (s : System F)
      → Invariant s
      → Invariant (record s { engine = set_status id status s.engine })
  unfolding update_alert_status
  set_status-Invariant id status s inv =
      let alerts = with_status id status s.engine.store.alerts in
      elim (Bool-cases (is_unique_among alerts alerts)) [
        | inl h ↦ rw h (is_unique_among-IsUnique alerts h, inv.1)
        | inr h ↦ rw h inv
      ]

  created-Invariant :
      (a : Alert F) (s : System F)
      → Invariant s
      → Invariant (record s { engine = store_created (create_alert a s.engine.store) s.engine })
  unfolding create_alert
  created-Invariant a s inv = elim (Bool-cases (leb 1 (rivals a a.rule_id s.engine.store.alerts))) [
    | inl h ↦ rw h inv
    | inr h ↦ rw h (
      opened-IsUnique (log_of s.engine) (record a { id = s.engine.store.next_id })
          (ground (arith, h)) inv.0,
      λ id. ground (arith, inv.1 id),
    )
  ]

  take_job-Invariant :
      (queue : List (NotificationJob F)) (s : System F)
      → s.engine.notif_queue ≡ queue
      → Invariant s
      → Invariant (take_job queue s)
  take_job-Invariant [] s e inv = inv
  take_job-Invariant (job ∷ queue) s e inv =
      (inv.0, λ id. ground (arith, e, inv.1 id, count_if-append (is_job_of id) s.taken (job ∷ [])))

module _ {F : Type 0} (fl : Floats F) (same : ConditionResult F → ConditionResult F → Bool)
    (w : Wiring) where
  step-Invariant :
      (event : Event F) (s : System F) → Invariant s → Invariant (step fl same w event s)
  unfolding step delete_alert
  step-Invariant (metric_arrived moment rules device m previous) s inv =
      let steps = process_metric-LogSteps fl same w moment rules device m previous s.engine in
      (LogSteps-IsUnique steps inv.0, LogSteps-IsOnce s.taken steps inv.1)
  step-Invariant (absence_ticked reading devices rules) s inv =
      let steps = evaluate_absence_conditions-LogSteps fl same w reading devices rules s.engine in
      (LogSteps-IsUnique steps inv.0, LogSteps-IsOnce s.taken steps inv.1)
  step-Invariant (alert_created a) s inv = created-Invariant a s inv
  step-Invariant (status_updated id status) s inv =
      set_status-Invariant id (normalized status) s inv
  step-Invariant (alert_acknowledged id) s inv = set_status-Invariant id "acknowledged" s inv
  step-Invariant (alert_resolved id) s inv = set_status-Invariant id "resolved" s inv
  step-Invariant (alert_deleted id) s inv =
      (select-IsUnique (λ a. not (a.id == id)) s.engine.store.alerts inv.0, inv.1)
  step-Invariant job_taken s inv = take_job-Invariant s.engine.notif_queue s refl inv

  run-Invariant :
      (events : List (Event F)) (s : System F) → Invariant s → Invariant (run fl same w events s)
  unfolding run
  run-Invariant [] s inv = inv
  run-Invariant (event ∷ events) s inv =
      run-Invariant events (step fl same w event s) (step-Invariant event s inv)

  -- No alert is notified twice: after any sequence of events, of the jobs that wait and those that
  -- workers have taken, at most one is of a given alert, if at the start each job was the only one of an
  -- alert with an id below the next one and at most one alert of a rule and a device was active.
  pub run-is_job_of :
      (events : List (Event F)) (s : System F) (id : ℕ)
      → Invariant s
      → let after = run fl same w events s in
        count_if (is_job_of id) after.taken + count_if (is_job_of id) after.engine.notif_queue ≤ 1
  run-is_job_of events s id inv = ground (arith, (run-Invariant events s inv).1 id)
