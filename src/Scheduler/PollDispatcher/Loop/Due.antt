-- ===== src/Scheduler/PollDispatcher/Loop/Due.antt =====
-- dispatchDue and rescheduleTimer in poll_dispatcher.go, as their callers see them.
use rayavriti_netmonitor.Common.{
  ℕ, ◌*◌, ◌<◌, ◌≡◌, List, [], ◌∷◌, some, length, count_if-le-length, arith, Bool-cases, inl, inr,
}
use rayavriti_netmonitor.Common.Int.{pos, to_int64-small}
use rayavriti_netmonitor.Common.Assoc.{lookup, nat_eq}
use rayavriti_netmonitor.Scheduler.Types.{PollJob}
use rayavriti_netmonitor.Scheduler.DeviceStateTracker.{failure_level}
use rayavriti_netmonitor.Scheduler.WorkerPool.Queues.{Queues, enqueue}
use rayavriti_netmonitor.Scheduler.PollDispatcher.Defs.{
  ScheduleEntry, Dispatcher, effective_interval, retry_soon,
}
use rayavriti_netmonitor.Scheduler.PollDispatcher.Dispatch.{
  Round, dispatch_loop, dispatch_due, enqueue_all, round_of,
}
use rayavriti_netmonitor.Scheduler.PollDispatcher.Schedule.{is_due}
use rayavriti_netmonitor.Scheduler.PollDispatcher.Invariant.{EntryOk, IsValid, retry_soon-IsValid}
use rayavriti_netmonitor.Scheduler.PollDispatcher.Loop.Entry.{jobs_for}
use rayavriti_netmonitor.Scheduler.PollDispatcher.Loop.Step.{RoundOk, settled, ready_jobs}
use rayavriti_netmonitor.Scheduler.PollDispatcher.Loop.Total.{dispatch_loop-Finished}

start-RoundOk : (d : Dispatcher) → IsValid d → RoundOk (round_of d)
start-RoundOk d v = record { entries_ok = v.entries; synced = v.synced }

-- If the heap and the map hold the same devices and every interval is at least five seconds and
-- below 36 years, then with more fuel than the heap has entries the loop of dispatchDue ends; then
-- the entry of each device is what the loop makes of one due entry if it was due, and unchanged if not, and there
-- is one job for the device if it was due, not paused and not in flight, and else none.
pub dispatch_loop_exact :
    (fuel now id : ℕ) (d : Dispatcher)
    → IsValid d
    → length d.schedule < fuel
    → (t : Round) × (dispatch_loop fuel now (round_of d) ≡ some t)
      × (lookup id t.entries ≡ settled now (lookup id d.device_map))
      × (jobs_for id t.jobs ≡ ready_jobs now (lookup id d.device_map))
dispatch_loop_exact fuel now id d v h =
    let (t, ends, f) =
      dispatch_loop-Finished fuel now (round_of d) (start-RoundOk d v)
        (omega (arith, count_if-le-length (is_due now d.device_map) d.schedule)) in
    (t, ends, f.entries id, omega (arith, f.jobs id))

enqueue_all-IsValid :
    (later : ℕ) (jobs : List PollJob) (d : Dispatcher) (q : Queues)
    → IsValid d
    → IsValid (enqueue_all later jobs (d, q)).0
unfolding enqueue_all
enqueue_all-IsValid later [] d q v = v
enqueue_all-IsValid later (job ∷ jobs) d q v = elim (Bool-cases (enqueue job q).1) [
  | inl sent ↦ rw (sent, enqueue_all) (enqueue_all-IsValid later jobs d (enqueue job q).0 v)
  | inr full ↦
      rw (full, enqueue_all)
        (enqueue_all-IsValid later jobs (retry_soon later job.device.id d) (enqueue job q).0
          (retry_soon-IsValid later job.device.id d v))
]

due_loop :
    (fuel now later : ℕ) (d : Dispatcher) (q : Queues) (t : Round)
    → dispatch_loop fuel now (round_of d) ≡ some t
    → dispatch_due fuel now later (d, q)
      ≡ some (enqueue_all later t.jobs (record d { schedule = t.ids; device_map = t.entries }, q))
unfolding dispatch_due
due_loop fuel now later d q t ends = rw (ends, dispatch_due)

-- If the heap and the map hold the same devices and every interval is at least five seconds and
-- below 36 years, then with more fuel than the heap has entries dispatchDue returns, whatever room
-- the pool has, and the same holds of the dispatcher again.
pub dispatch_due_total :
    (fuel now later : ℕ) (d : Dispatcher) (q : Queues)
    → IsValid d
    → length d.schedule < fuel
    → (e : Dispatcher) × (r : Queues) × (dispatch_due fuel now later (d, q) ≡ some (e, r))
      × IsValid e
dispatch_due_total fuel now later d q v h =
    let (t, ends, f) =
      dispatch_loop-Finished fuel now (round_of d) (start-RoundOk d v)
        (omega (arith, count_if-le-length (is_due now d.device_map) d.schedule)) in
    let after : Dispatcher = record d { schedule = t.ids; device_map = t.entries } in
    let after-IsValid : IsValid after = record {
      entries = f.round_ok.entries_ok;
      synced = f.round_ok.synced;
      default_at_most = v.default_at_most;
    } in
    (
      (enqueue_all later t.jobs (after, q)).0,
      (enqueue_all later t.jobs (after, q)).1,
      due_loop fuel now later d q t ends,
      enqueue_all-IsValid later t.jobs after q after-IsValid,
    )

-- The dispatcher's backoff is the interval times the multiplier that the state tracker has for
-- the same number of failures, for an interval below 36 years.
pub effective_interval-multiplier :
    (id : ℕ) (e : ScheduleEntry)
    → EntryOk id e
    → effective_interval e ≡ pos (e.interval * (failure_level e.failures).1)
unfolding effective_interval failure_level
effective_interval-multiplier id e v = ground (
  arith,
  v.at_most,
  to_int64-small (e.interval * 8),
  to_int64-small (e.interval * 4),
  to_int64-small (e.interval * 2),
)
