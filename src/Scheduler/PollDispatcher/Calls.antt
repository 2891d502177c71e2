-- ===== src/Scheduler/PollDispatcher/Calls.antt =====
-- Sequences of calls of the dispatcher in poll_dispatcher.go.
use rayavriti_netmonitor.Common.{
  ℕ, suc, ◌≡◌, refl, subst, sym, length, arith, Option, none, some, Bool, true, List, [], ◌∷◌,
  String, Bool-cases, inl, inr, str_eq, All,
}
use rayavriti_netmonitor.Common.Int.{ℤ, ltb_pos}
use rayavriti_netmonitor.Common.Assoc.{lookup, nat_eq}
use rayavriti_netmonitor.Scheduler.Types.{Device}
use rayavriti_netmonitor.Scheduler.PollDispatcher.Defs.{
  Dispatcher, begin_initial_load, end_initial_load, clamp_interval, upsert, remove, done, pause,
  resume, resumed, succeeded, record_success, record_status, failed, record_failure, retry_soon,
  new_dispatcher,
}
use rayavriti_netmonitor.Scheduler.PollDispatcher.Invariant.{
  IsValid, clamp_interval_bounds, upsert_at-IsValid, remove_at-IsValid, update-IsValid,
  wake_if_found-IsValid, failed-KeepsOk, retry_soon-IsValid,
}
use rayavriti_netmonitor.Scheduler.WorkerPool.Queues.{Queues}
use rayavriti_netmonitor.Scheduler.PollDispatcher.Dispatch.{dispatch_due}
use rayavriti_netmonitor.Scheduler.PollDispatcher.Loop.Due.{dispatch_due_total}

-- A call of the dispatcher or a turn of its loop, with the reading of the clock where it takes one.
pub data Op : Type 0 where
  upserts : ℕ → Device → ℕ → ℤ → Op
  removes pauses dones : ℕ → Op
  resumes successes failures retries : ℕ → ℕ → Op
  statuses : ℕ → String → Op
  begins ends : Op
  dispatches : ℕ → ℕ → Queues → Op

-- What a turn leaves; it always ends, by `dispatch_due_total`.
abbrev pub dispatched : Option (Dispatcher × Queues) → Dispatcher → Dispatcher
dispatched none d = d
dispatched (some (e, q)) d = e

unfoldable pub apply : Op → Dispatcher → Dispatcher
apply (upserts now device priority interval) d = upsert now device priority interval d
apply (removes id) d = remove id d
apply (pauses id) d = pause id d
apply (dones id) d = done id d
apply (resumes now id) d = resume now id d
apply (successes now id) d = record_success now id d
apply (failures now id) d = record_failure now id d
apply (retries now id) d = retry_soon now id d
apply (statuses id status) d = record_status id status d
apply begins d = begin_initial_load d
apply ends d = end_initial_load d
apply (dispatches now later q) d =
    dispatched (dispatch_due (suc (length d.schedule)) now later (d, q)) d

-- An interval given to Upsert is below 36 years.
abbrev pub in_range : Op → Bool
in_range (upserts now device priority interval) = ltb_pos interval 1152921504606846976
in_range _ = true

-- Every operation of the dispatcher keeps the heap and the map in step and each entry in range.
pub apply-IsValid :
    (op : Op) (d : Dispatcher) → in_range op ≡ true → IsValid d → IsValid (apply op d)
unfolding apply upsert remove pause done resume record_success record_failure record_status
    begin_initial_load end_initial_load
apply-IsValid (upserts now device priority interval) d r v =
    let (least, most) = clamp_interval_bounds interval d.interval r v.default_at_most in
    upsert_at-IsValid now device priority (clamp_interval interval d.interval)
      (lookup device.id d.device_map) d refl least most v
apply-IsValid (removes id) d r v = remove_at-IsValid id (lookup id d.device_map) d refl v
apply-IsValid (pauses id) d r v = update-IsValid _ id d (λ j e w. assumption) v
apply-IsValid (dones id) d r v = update-IsValid _ id d (λ j e w. assumption) v
apply-IsValid (resumes now id) d r v =
    wake_if_found-IsValid (lookup id d.device_map) _
      (update-IsValid (resumed now) id d (λ j e w. assumption) v)
apply-IsValid (successes now id) d r v = update-IsValid (succeeded now) id d (λ j e w. assumption) v
apply-IsValid (failures now id) d r v = update-IsValid (failed now) id d (failed-KeepsOk now) v
apply-IsValid (retries now id) d r v = retry_soon-IsValid now id d v
apply-IsValid (statuses id status) d r v = elim (Bool-cases (str_eq status "")) [
  | inl blank ↦ rw blank v
  | inr given ↦ rw given (update-IsValid _ id d (λ j e w. assumption) v)
]
apply-IsValid begins d r v = record {
  entries = v.entries;
  synced = v.synced;
  default_at_most = v.default_at_most;
}
apply-IsValid ends d r v = record {
  entries = v.entries;
  synced = v.synced;
  default_at_most = v.default_at_most;
}
apply-IsValid (dispatches now later q) d r v =
    let (e, q', returns, valid) =
      dispatch_due_total (suc (length d.schedule)) now later d q v (omega arith) in
    subst (λ o. IsValid (dispatched o d)) (sym returns) valid

unfoldable pub apply_all : List Op → Dispatcher → Dispatcher
apply_all [] d = d
apply_all (op ∷ ops) d = apply_all ops (apply op d)

apply_all-IsValid :
    (ops : List Op) (d : Dispatcher)
    → All (λ op. in_range op ≡ true) ops
    → IsValid d
    → IsValid (apply_all ops d)
unfolding apply_all
apply_all-IsValid [] d r v = v
apply_all-IsValid (op ∷ ops) d r v =
    apply_all-IsValid ops (apply op d) r.1 (apply-IsValid op d r.0 v)

-- After any calls and any turns of the loop on a new dispatcher whose default interval and whose
-- given intervals are below 36 years, during the initial load and after it, the heap holds exactly the devices of the map, each once, and each entry is filed
-- under its device's id with an interval of at least five seconds and below 36 years.
pub reachable-IsValid :
    (ops : List Op) (default_interval : ℤ)
    → ltb_pos default_interval 1152921504606846976 ≡ true
    → All (λ op. in_range op ≡ true) ops
    → IsValid (apply_all ops (new_dispatcher default_interval))
unfolding new_dispatcher
reachable-IsValid ops default_interval h r =
    apply_all-IsValid ops _ r (record { entries = tt; synced = λ id. refl; default_at_most = h })
