-- ===== src/Scheduler/PollDispatcher/Dispatch.antt =====
-- poll_dispatcher.go: dispatchDue, its loop over the heap and the hand-over to the worker pool,
-- and rescheduleTimer.
use rayavriti_netmonitor.Common.{
  ℕ, zero, suc, ◌+◌, ◌-◌, Bool, true, false, List, [], ◌∷◌, ◌++◌, Option, none, some, leb, ltb,
  str_eq, if◌then◌else◌,
}
use rayavriti_netmonitor.Common.Int.{add_duration}
use rayavriti_netmonitor.Common.Assoc.{lookup, insert, nat_eq}
use rayavriti_netmonitor.Scheduler.Types.{DeviceState, paused, is_unreachable, Device, PollJob}
use rayavriti_netmonitor.Scheduler.WorkerPool.Queues.{Queues, enqueue}
use rayavriti_netmonitor.Scheduler.PollDispatcher.Defs.{
  ScheduleEntry, Entries, Dispatcher, second, day, effective_interval, remove_id, retry_soon,
}

-- The time of the entry that an id points to; every id in the heap has one.
abbrev pub time_of : Option ScheduleEntry → ℕ
time_of none = 0
time_of (some e) = e.next_poll_at

abbrev pub poll_time : Entries → ℕ → ℕ
poll_time m id = time_of (lookup id m)

abbrev pub sooner : Entries → ℕ → Option ℕ → ℕ
sooner m id none = id
sooner m id (some j) = if leb (poll_time m id) (poll_time m j) then id else j

-- Element 0 of the heap.
unfoldable pub earliest : Entries → List ℕ → Option ℕ
earliest m [] = none
earliest m (id ∷ ids) = some (sooner m id (earliest m ids))

abbrev pub stamped_device : ScheduleEntry → Device
stamped_device e =
    if str_eq e.last_status "" then e.device else record (e.device) { status = e.last_status }

abbrev pub poll_job : ScheduleEntry → PollJob
poll_job e = record {
  device = stamped_device e;
  priority = if is_unreachable e.state then 2 else e.priority;
  schedule_at = e.next_poll_at;
}

-- The body of the loop for a due entry: the entry that is pushed back, and the job if any.
unfoldable pub dispatch_entry :
    ℕ → DeviceState → Bool → ScheduleEntry → ScheduleEntry × Option PollJob
dispatch_entry now paused in_flight e = (record e { next_poll_at = now + day }, none)
dispatch_entry now _ true e =
    (record e { next_poll_at = add_duration now (effective_interval e) }, none)
dispatch_entry now _ false e = (
  record e { in_flight = true; next_poll_at = add_duration now (effective_interval e) },
  some (poll_job e),
)

abbrev pub add_job : List PollJob → Option PollJob → List PollJob
add_job jobs none = jobs
add_job jobs (some job) = jobs ++ job ∷ []

pub record Round : Type 0 where
  pub ids : List ℕ
  pub entries : Entries
  pub jobs : List PollJob

-- Pop the entry of `id`, deal with it and push it back.
unfoldable pub dispatch_one : ℕ → ℕ → Option ScheduleEntry → Round → Round
unfolding dispatch_entry
dispatch_one now id none r = record r { ids = remove_id id r.ids }
dispatch_one now id (some e) r =
    let done = dispatch_entry now e.state e.in_flight e in
    record r {
      ids = remove_id id r.ids ++ id ∷ [];
      entries = insert id (done.0) r.entries;
      jobs = add_job r.jobs (done.1);
    }

-- The loop, on fuel; `none` means that the fuel ran out.
unfoldable pub dispatch_loop : ℕ → ℕ → Round → Option Round
dispatch_loop zero now r = none
dispatch_loop (suc fuel) now r = elim (earliest r.entries r.ids) [
  | none ↦ some r
  | some id ↦
      let rest = dispatch_loop fuel now (dispatch_one now id (lookup id r.entries) r) in
      if ltb now (poll_time r.entries id) then some r else rest
]

abbrev pub round_of : Dispatcher → Round
round_of d = record { ids = d.schedule; entries = d.device_map; jobs = [] }

-- The jobs are offered to the pool; a device whose job is dropped is retried soon.
unfoldable pub enqueue_all : ℕ → List PollJob → Dispatcher × Queues → Dispatcher × Queues
unfolding enqueue
enqueue_all later [] (d, q) = (d, q)
enqueue_all later (job ∷ jobs) (d, q) =
    let (q', sent) = enqueue job q in
    enqueue_all later jobs (if sent then d else retry_soon later job.device.id d, q')

-- dispatchDue, with the readings of the clock at the loop and at the retries.
unfoldable pub dispatch_due : ℕ → ℕ → ℕ → Dispatcher × Queues → Option (Dispatcher × Queues)
unfolding dispatch_loop enqueue_all
dispatch_due fuel now later (d, q) = elim (dispatch_loop fuel now (round_of d)) [
  | none ↦ none
  | some r ↦
      some (enqueue_all later r.jobs (record d { schedule = r.ids; device_map = r.entries }, q))
]

-- What rescheduleTimer sets the timer to: no longer than until the first entry is due.
unfoldable pub timer_wait : ℕ → Dispatcher → ℕ
timer_wait now d = elim (earliest d.device_map d.schedule) [
  | none ↦ second
  | some id ↦ poll_time d.device_map id - now
]
