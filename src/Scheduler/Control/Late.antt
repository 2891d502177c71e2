-- ===== src/Scheduler/Control/Late.antt =====
-- scheduler.go: a result that arrives when its device is no longer scheduled.
use rayavriti_netmonitor.Common.{
  ℕ, Bool, true, false, not, ◌&&◌, List, [], ◌∷◌, some, ◌≡◌, refl, ◌∙◌, Bool-cases, inl, inr, arith,
  ap, String, str_eq,
}
use rayavriti_netmonitor.Common.Assoc.{lookup, lookup-insert_self, nat_eq}
use rayavriti_netmonitor.Scheduler.Types.{Device, PollResult}
use rayavriti_netmonitor.Scheduler.DeviceStateTracker as Tracker
use rayavriti_netmonitor.Scheduler.PollDispatcher.Defs as Dispatch
use rayavriti_netmonitor.Scheduler.PollDispatcher.Defs.{Dispatcher}
use rayavriti_netmonitor.Scheduler.PollDispatcher.Invariant.{is_some}
use rayavriti_netmonitor.Scheduler.Control.{
  Scheduler, listed, reconcile, is_down_result, is_operational, handle_poll_result, record_outcome,
}
use rayavriti_netmonitor.Scheduler.Control.Reconcile.{
  has, update-has, reconcile-has, reconcile-tracker,
}

record_status-has :
    (id j : ℕ) (status : String) (d : Dispatcher)
    → has id (Dispatch.record_status j status d) ≡ has id d
unfolding Dispatch.record_status
record_status-has id j status d = elim (Bool-cases (str_eq status "")) [
  | inl blank ↦ rw blank refl
  | inr given ↦ rw given (update-has _ id j d)
]

abbrev pub never_listed : ℕ → List (ℕ × List Device) → Bool
never_listed id [] = true
never_listed id ((now, ds) ∷ rounds) = not (listed id ds) && never_listed id rounds

module _ {F : Type 0} where
  abbrev pub is_tracked : ℕ → Scheduler F → Bool
  is_tracked id s = is_some (lookup id s.state_tracker)

  record_outcome-has :
      (id now : ℕ) (pr : PollResult F) (s : Scheduler F)
      → has id (record_outcome now pr s).dispatcher ≡ has id s.dispatcher
  unfolding Dispatch.record_failure Dispatch.record_success
  record_outcome-has id now pr s = elim (Bool-cases (is_down_result pr)) [
    | inl down ↦ rw down (update-has _ id pr.device.id s.dispatcher)
    | inr up ↦ rw up (update-has _ id pr.device.id s.dispatcher)
  ]

  record_outcome-is_tracked :
      (now : ℕ) (pr : PollResult F) (s : Scheduler F)
      → is_tracked pr.device.id (record_outcome now pr s) ≡ true
  unfolding Tracker.record_failure Tracker.record_success
  record_outcome-is_tracked now pr s = elim (Bool-cases (is_down_result pr)) [
    | inl down ↦ rw down (ap is_some (lookup-insert_self pr.device.id _ s.state_tracker))
    | inr up ↦ rw up (ap is_some (lookup-insert_self pr.device.id _ s.state_tracker))
  ]

  handle_poll_result-has :
      (id now : ℕ) (pr : PollResult F) (s : Scheduler F)
      → has id (handle_poll_result now pr s).dispatcher ≡ has id s.dispatcher
  unfolding handle_poll_result Dispatch.done
  handle_poll_result-has id now pr s =
      let t : Scheduler F = record s { dispatcher = Dispatch.done pr.device.id s.dispatcher } in
      let freed : has id t.dispatcher ≡ has id s.dispatcher =
        update-has _ id pr.device.id s.dispatcher in
      elim (Bool-cases (is_operational pr)) [
        | inl skipped ↦ rw skipped freed
        | inr counted ↦ rw counted (
            record_status-has id pr.device.id pr.status (record_outcome now pr t).dispatcher
            ∙ record_outcome-has id now pr t
            ∙ freed)
      ]

  handle_poll_result-is_tracked :
      (now : ℕ) (pr : PollResult F) (s : Scheduler F)
      → is_operational pr ≡ false
      → is_tracked pr.device.id (handle_poll_result now pr s) ≡ true
  unfolding handle_poll_result
  handle_poll_result-is_tracked now pr s counted = rw counted (
      record_outcome-is_tracked now pr
        (record s { dispatcher = Dispatch.done pr.device.id s.dispatcher }))

  unfoldable pub reconcile_all : List (ℕ × List Device) → Scheduler F → Scheduler F
  reconcile_all [] s = s
  reconcile_all ((now, ds) ∷ rounds) s = reconcile_all rounds (reconcile now (some ds) s)

  reconcile_all-is_tracked :
      (id : ℕ) (rounds : List (ℕ × List Device)) (s : Scheduler F)
      → never_listed id rounds ≡ true
      → has id s.dispatcher ≡ false
      → is_tracked id s ≡ true
      → is_tracked id (reconcile_all rounds s) ≡ true
  unfolding reconcile_all
  reconcile_all-is_tracked id [] s never gone kept = kept
  reconcile_all-is_tracked id ((now, ds) ∷ rounds) s never gone kept =
      reconcile_all-is_tracked id rounds (reconcile now (some ds) s) (ground (arith, never))
        (ground (arith, never, reconcile-has id now ds s))
        (ground (arith, gone, kept, reconcile-tracker id now ds s))

  -- If a result that is not an operational error comes when its device is not scheduled, the tracker
  -- has a health of the device, and it still has it after any number of reconciliations with lists
  -- that leave the device out.
  pub late_result_persists :
      (now : ℕ) (pr : PollResult F) (s : Scheduler F) (rounds : List (ℕ × List Device))
      → is_operational pr ≡ false
      → has pr.device.id s.dispatcher ≡ false
      → never_listed pr.device.id rounds ≡ true
      → is_tracked pr.device.id (reconcile_all rounds (handle_poll_result now pr s)) ≡ true
  late_result_persists now pr s rounds counted gone never =
      reconcile_all-is_tracked pr.device.id rounds (handle_poll_result now pr s) never
        (handle_poll_result-has pr.device.id now pr s ∙ gone)
        (handle_poll_result-is_tracked now pr s counted)
