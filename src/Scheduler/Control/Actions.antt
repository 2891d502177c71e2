-- ===== src/Scheduler/Control/Actions.antt =====
-- scheduler.go: any sequence of schedulings, reconciliations and poll results.
use rayavriti_netmonitor.Common.{
  and_left, and_right, ℕ, Bool, true, false, List, [], ◌∷◌, Option, none, some, ◌≡◌, refl, ◌∙◌,
  ◌&&◌, Bool-cases, inl, inr, str_eq, String,
}
use rayavriti_netmonitor.Common.Int.{ℤ}
use rayavriti_netmonitor.Common.Assoc.{lookup, nat_eq}
use rayavriti_netmonitor.Scheduler.Types.{Device, PollResult}
use rayavriti_netmonitor.Scheduler.DeviceStateTracker as Tracker
use rayavriti_netmonitor.Scheduler.PollDispatcher.Defs as Dispatch
use rayavriti_netmonitor.Scheduler.PollDispatcher.Defs.{Dispatcher}
use rayavriti_netmonitor.Scheduler.ResultPipeline.Run.{new_result_pipeline}
use rayavriti_netmonitor.Scheduler.Control.{
  Scheduler, device_priority, device_interval, listed, schedule_device, unschedule_device,
  schedule_all, remove_unlisted, remove_unless, reconcile, is_down_result, is_operational,
  handle_poll_result, record_outcome, elapsed,
}
use rayavriti_netmonitor.Scheduler.Control.Reconcile.{has, update-has}
use rayavriti_netmonitor.Scheduler.Control.Agreement.{
  AgreesAt, failed-agree, succeeded-agree, update-AgreesAt, update-insert-AgreesAt,
  upsert_at-AgreesAt, remove_at-AgreesAt,
}

pub data Action (F : Type 0) : Type 0 where
  schedules : ℕ → Device → Action F
  unschedules : ℕ → Action F
  reconciles : ℕ → Option (List Device) → Action F
  results : ℕ → PollResult F → Action F

remove-AgreesAt :
    (id j : ℕ) (d : Dispatcher) (t : Tracker.Tracker)
    → AgreesAt j d t
    → AgreesAt j (Dispatch.remove id d) (Tracker.remove id t)
unfolding Dispatch.remove Tracker.remove
remove-AgreesAt id j d t a = remove_at-AgreesAt id j (lookup id d.device_map) d t refl a

done-has : (id j : ℕ) (d : Dispatcher) → has id (Dispatch.done j d) ≡ has id d
unfolding Dispatch.done
done-has id j d = update-has _ id j d

module _ {F : Type 0} where
  unfoldable pub act : Action F → Scheduler F → Scheduler F
  act (schedules now d) s = schedule_device now d s
  act (unschedules id) s = unschedule_device id s
  act (reconciles now ds) s = reconcile now ds s
  act (results now pr) s = handle_poll_result now pr s

  unfoldable pub act_all : List (Action F) → Scheduler F → Scheduler F
  act_all [] s = s
  act_all (a ∷ acts) s = act_all acts (act a s)

  abbrev pub is_prompt_at : Action F → Scheduler F → Bool
  is_prompt_at (results now pr) s = has pr.device.id s.dispatcher
  is_prompt_at _ s = true

  -- Each result comes while its device is scheduled.
  abbrev pub is_prompt : List (Action F) → Scheduler F → Bool
  is_prompt [] s = true
  is_prompt (a ∷ acts) s = is_prompt_at a s && is_prompt acts (act a s)

  abbrev pub Agrees : Scheduler F → Type 0
  Agrees s = (id : ℕ) → AgreesAt id s.dispatcher s.state_tracker

  schedule_device-Agrees :
      (now : ℕ) (d : Device) (s : Scheduler F) → Agrees s → Agrees (schedule_device now d s)
  unfolding schedule_device Dispatch.upsert
  schedule_device-Agrees now d s a id =
      upsert_at-AgreesAt now d (device_priority d)
        (Dispatch.clamp_interval (device_interval d) s.dispatcher.interval) id
        (lookup d.id s.dispatcher.device_map) s.dispatcher s.state_tracker (a d.id) (a id)

  schedule_all-Agrees :
      (now : ℕ) (ds : List Device) (s : Scheduler F) → Agrees s → Agrees (schedule_all now ds s)
  unfolding schedule_all
  schedule_all-Agrees now [] s a = a
  schedule_all-Agrees now (d ∷ ds) s a =
      schedule_all-Agrees now ds (schedule_device now d s) (schedule_device-Agrees now d s a)

  remove_unless-Agrees :
      (b : Bool) (id : ℕ) (s : Scheduler F) → Agrees s → Agrees (remove_unless b id s)
  unfolding remove_unless
  remove_unless-Agrees true id s a j = a j
  remove_unless-Agrees false id s a j = remove-AgreesAt id j s.dispatcher s.state_tracker (a j)

  remove_unlisted-Agrees :
      (ds : List Device) (ids : List ℕ) (s : Scheduler F)
      → Agrees s
      → Agrees (remove_unlisted ds ids s)
  unfolding remove_unlisted
  remove_unlisted-Agrees ds [] s a = a
  remove_unlisted-Agrees ds (id ∷ ids) s a =
      remove_unlisted-Agrees ds ids (remove_unless (listed id ds) id s)
        (remove_unless-Agrees (listed id ds) id s a)

  record_outcome-Agrees :
      (now : ℕ) (pr : PollResult F) (s : Scheduler F)
      → has pr.device.id s.dispatcher ≡ true
      → Agrees s
      → Agrees (record_outcome now pr s)
  unfolding Dispatch.record_failure Dispatch.record_success Tracker.record_failure
      Tracker.record_success
  record_outcome-Agrees now pr s found a = elim (Bool-cases (is_down_result pr)) [
    | inl down ↦ rw down (λ j.
        update-insert-AgreesAt (Dispatch.failed now) _ pr.device.id j s.dispatcher s.state_tracker
          (failed-agree now pr.device.id (lookup pr.device.id s.dispatcher.device_map)
            (lookup pr.device.id s.state_tracker) found (a pr.device.id))
          (a j))
    | inr up ↦ rw up (λ j.
        update-insert-AgreesAt (Dispatch.succeeded now) _ pr.device.id j s.dispatcher
          s.state_tracker
          (succeeded-agree now (elapsed pr.started_at pr.finished_at) pr.device.id
            (lookup pr.device.id s.dispatcher.device_map) (lookup pr.device.id s.state_tracker)
            found)
          (a j))
  ]

  done-Agrees :
      (id : ℕ) (s : Scheduler F)
      → Agrees s
      → Agrees (record s { dispatcher = Dispatch.done id s.dispatcher })
  unfolding Dispatch.done
  done-Agrees id s a j = update-AgreesAt _ id j s.dispatcher s.state_tracker (λ e. refl) (a j)

  record_status-Agrees :
      (id : ℕ) (status : String) (s : Scheduler F)
      → Agrees s
      → Agrees (record s { dispatcher = Dispatch.record_status id status s.dispatcher })
  unfolding Dispatch.record_status
  record_status-Agrees id status s a j = elim (Bool-cases (str_eq status "")) [
    | inl blank ↦ rw blank (a j)
    | inr given ↦ rw given (update-AgreesAt _ id j s.dispatcher s.state_tracker (λ e. refl) (a j))
  ]

  handle_poll_result-Agrees :
      (now : ℕ) (pr : PollResult F) (s : Scheduler F)
      → has pr.device.id s.dispatcher ≡ true
      → Agrees s
      → Agrees (handle_poll_result now pr s)
  unfolding handle_poll_result
  handle_poll_result-Agrees now pr s found a =
      let t : Scheduler F = record s { dispatcher = Dispatch.done pr.device.id s.dispatcher } in
      let freed : Agrees t = done-Agrees pr.device.id s a in
      elim (Bool-cases (is_operational pr)) [
        | inl skipped ↦ rw skipped freed
        | inr counted ↦ rw counted (
            record_status-Agrees pr.device.id pr.status (record_outcome now pr t) (
              record_outcome-Agrees now pr t
                (done-has pr.device.id pr.device.id s.dispatcher ∙ found) freed))
      ]

  act-Agrees :
      (x : Action F) (s : Scheduler F) → is_prompt_at x s ≡ true → Agrees s → Agrees (act x s)
  unfolding act unschedule_device reconcile
  act-Agrees (schedules now d) s p a = schedule_device-Agrees now d s a
  act-Agrees (unschedules id) s p a = λ j. remove-AgreesAt id j s.dispatcher s.state_tracker (a j)
  act-Agrees (reconciles now none) s p a = a
  act-Agrees (reconciles now (some ds)) s p a =
      remove_unlisted-Agrees ds (Dispatch.device_ids (schedule_all now ds s).dispatcher) _
        (schedule_all-Agrees now ds s a)
  act-Agrees (results now pr) s p a = handle_poll_result-Agrees now pr s p a

  act_all-keeps :
      (xs : List (Action F)) (s : Scheduler F)
      → is_prompt xs s ≡ true
      → Agrees s
      → Agrees (act_all xs s)
  unfolding act_all
  act_all-keeps [] s p a = a
  act_all-keeps (x ∷ xs) s p a =
      act_all-keeps xs (act x s) (and_right (is_prompt_at x s) _ p)
        (act-Agrees x s (and_left (is_prompt_at x s) _ p) a)

  unfoldable pub new_scheduler : ℤ → ℤ → Scheduler F
  new_scheduler default_interval batch_size = record {
    dispatcher = Dispatch.new_dispatcher default_interval;
    state_tracker = Tracker.new_tracker;
    pipeline = new_result_pipeline batch_size;
    job_count = 0;
  }

  -- After any schedulings, reconciliations and poll results on a new scheduler, where each result
  -- comes while its device is scheduled, the dispatcher and the state tracker agree on every device:
  -- a scheduled one has the same number of consecutive failures in both (0 where the tracker has no
  -- health of it yet), and one that is not scheduled has no health.
  pub act_all-Agrees :
      (default_interval batch_size : ℤ) (xs : List (Action F))
      → is_prompt xs (new_scheduler default_interval batch_size) ≡ true
      → Agrees (act_all xs (new_scheduler default_interval batch_size))
  unfolding new_scheduler Dispatch.new_dispatcher
  act_all-Agrees default_interval batch_size xs p = act_all-keeps xs _ p (λ id. refl)
