-- ===== src/Scheduler/PollDispatcher/Loop/Entry.antt =====
-- dispatchDue in poll_dispatcher.go: one due entry.
use rayavriti_netmonitor.Common.{
  one_if, ℕ, ◌+◌, ◌*◌, ◌≤◌, ◌<◌, ◌≡◌, refl, Bool, true, false, not, ◌&&◌, List, [], ◌∷◌, leb, ◌==◌,
  count_if, count_if-append, arith, if◌then◌else◌, Bool-cases, inl, inr, str_eq,
}
use rayavriti_netmonitor.Common.Int.{pos, to_int64-small}
use rayavriti_netmonitor.Scheduler.Types.{
  DeviceState, healthy, paused, unreachable, is_paused, PollJob,
}
use rayavriti_netmonitor.Scheduler.PollDispatcher.Defs.{ScheduleEntry, effective_interval}
use rayavriti_netmonitor.Scheduler.PollDispatcher.Dispatch.{
  dispatch_entry, add_job, poll_job, stamped_device,
}
use rayavriti_netmonitor.Scheduler.PollDispatcher.Invariant.{EntryOk}

-- Backoff multiplies the interval by 1, 2, 4 or 8, and does not wrap.
pub effective_interval-pos :
    (id : ℕ) (e : ScheduleEntry)
    → EntryOk id e
    → (n : ℕ) × (effective_interval e ≡ pos n) × (e.interval ≤ n) × (n ≤ e.interval * 8)
unfolding effective_interval
effective_interval-pos id e v = elim (Bool-cases (leb 10 e.failures)) [
  | inl ten ↦
      rw ten (e.interval * 8, to_int64-small _ (omega (arith, v.at_most)), omega arith, omega arith)
  | inr n10 ↦ rw n10 (elim (Bool-cases (leb 3 e.failures)) [
    | inl three ↦
        rw three
          (e.interval * 4, to_int64-small _ (omega (arith, v.at_most)), omega arith, omega arith)
    | inr n3 ↦ rw n3 (elim (Bool-cases (leb 2 e.failures)) [
      | inl two ↦
          rw two
            (e.interval * 2, to_int64-small _ (omega (arith, v.at_most)), omega arith, omega arith)
      | inr n2 ↦ rw n2 (e.interval, refl, omega arith, omega arith)
    ])
  ])
]

abbrev pub processed : ℕ → ScheduleEntry → ScheduleEntry
processed now e = (dispatch_entry now e.state e.in_flight e).0

-- The entry that is pushed back is due later than now, so it is not popped again.
dispatch_entry-later :
    (now id : ℕ) (s : DeviceState) (b : Bool) (e : ScheduleEntry)
    → EntryOk id e
    → now < (dispatch_entry now s b e).0.next_poll_at
unfolding dispatch_entry
dispatch_entry-later now id paused b e v = omega arith
dispatch_entry-later now id healthy true e v =
    let (n, eq, least, most) = effective_interval-pos id e v in
    rw eq (omega (arith, v.at_least, least))
dispatch_entry-later now id healthy false e v =
    let (n, eq, least, most) = effective_interval-pos id e v in
    rw eq (omega (arith, v.at_least, least))
dispatch_entry-later now id unreachable true e v =
    let (n, eq, least, most) = effective_interval-pos id e v in
    rw eq (omega (arith, v.at_least, least))
dispatch_entry-later now id unreachable false e v =
    let (n, eq, least, most) = effective_interval-pos id e v in
    rw eq (omega (arith, v.at_least, least))

pub processed-later :
    (now id : ℕ) (e : ScheduleEntry) → EntryOk id e → now < (processed now e).next_poll_at
processed-later now id e v = dispatch_entry-later now id e.state e.in_flight e v

dispatch_entry-EntryOk :
    (now id : ℕ) (s : DeviceState) (b : Bool) (e : ScheduleEntry)
    → EntryOk id e
    → EntryOk id (dispatch_entry now s b e).0
unfolding dispatch_entry
dispatch_entry-EntryOk now id paused b e v = assumption
dispatch_entry-EntryOk now id healthy true e v = assumption
dispatch_entry-EntryOk now id healthy false e v = assumption
dispatch_entry-EntryOk now id unreachable true e v = assumption
dispatch_entry-EntryOk now id unreachable false e v = assumption

pub processed-EntryOk :
    (now id : ℕ) (e : ScheduleEntry) → EntryOk id e → EntryOk id (processed now e)
processed-EntryOk now id e v = dispatch_entry-EntryOk now id e.state e.in_flight e v

-- The entry of a device that is polled in this round.
abbrev pub is_ready : ℕ → ScheduleEntry → Bool
is_ready now e = leb e.next_poll_at now && (not (is_paused e.state) && not e.in_flight)

-- How many of the jobs are for a device.
abbrev pub jobs_for : ℕ → List PollJob → ℕ
jobs_for id jobs = count_if (λ job. job.device.id == id) jobs

stamped_device-id : (e : ScheduleEntry) → (stamped_device e).id ≡ e.device.id
stamped_device-id e = elim (Bool-cases (str_eq e.last_status "")) [
  | inl blank ↦ rw blank
  | inr given ↦ rw given
]

dispatch_entry-jobs :
    (now id j : ℕ) (s : DeviceState) (b : Bool) (e : ScheduleEntry) (jobs : List PollJob)
    → EntryOk id e
    → jobs_for j (add_job jobs (dispatch_entry now s b e).1)
      ≡ jobs_for j jobs + (if id == j then one_if (not (is_paused s) && not b) else 0)
unfolding dispatch_entry
dispatch_entry-jobs now id j paused b e jobs v = ground arith
dispatch_entry-jobs now id j healthy true e jobs v = ground arith
dispatch_entry-jobs now id j unreachable true e jobs v = ground arith
dispatch_entry-jobs now id j healthy false e jobs v =
    rw (count_if-append _ jobs (poll_job e ∷ []), stamped_device-id e, v.device_keyed) (omega arith)
dispatch_entry-jobs now id j unreachable false e jobs v =
    rw (count_if-append _ jobs (poll_job e ∷ []), stamped_device-id e, v.device_keyed) (omega arith)

-- A due entry yields a job for its own device exactly where it is ready.
pub processed-jobs :
    (now id j : ℕ) (e : ScheduleEntry) (jobs : List PollJob)
    → EntryOk id e
    → e.next_poll_at ≤ now
    → jobs_for j (add_job jobs (dispatch_entry now e.state e.in_flight e).1)
      ≡ jobs_for j jobs + (if id == j then one_if (is_ready now e) else 0)
processed-jobs now id j e jobs v due =
    ground (arith, dispatch_entry-jobs now id j e.state e.in_flight e jobs v)
