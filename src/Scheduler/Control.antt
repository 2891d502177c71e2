-- ===== src/Scheduler/Control.antt =====
-- backend/internal/scheduler/scheduler.go: the scheduler keeps the dispatcher, the state tracker and
-- the pipeline in step. Times are nanoseconds; an operation reads the clock once. A poll's lock, the
-- registry of collectors and what a collector answers are parameters.
pub mod Collect
pub mod Reconcile
pub mod Agreement
pub mod Actions
mod Late
mod Examples
use rayavriti_netmonitor.Common.{
  ℕ, ◌+◌, ◌-◌, ◌*◌, Bool, true, false, not, ◌&&◌, ◌||◌, List, [], ◌∷◌, Option, none, some, String,
  leb, ltb, ◌==◌, str_eq, if◌then◌else◌,
}
use rayavriti_netmonitor.Common.Int.{ℤ, pos, to_int64, ltb_pos}
use rayavriti_netmonitor.Scheduler.Types.{Device, CollectResult, PollResult, has_error}
use rayavriti_netmonitor.Scheduler.DeviceStateTracker as Tracker
use rayavriti_netmonitor.Scheduler.PollDispatcher.Defs as Dispatch
use rayavriti_netmonitor.Scheduler.ResultPipeline.Run.{Pipeline, submit}

pub record Scheduler (F : Type 0) : Type 0 where
  pub dispatcher : Dispatch.Dispatcher
  pub state_tracker : Tracker.Tracker
  pub pipeline : Pipeline F
  pub job_count : ℕ

-- scheduleDevice: SNMP and network devices come first.
unfoldable pub device_priority : Device → ℕ
device_priority d =
    if str_eq d.device_category "switch"
      || (str_eq d.device_category "router" || str_eq d.device_category "firewall")
    then 0
    else if str_eq d.protocol "snmp"
    then 0
    else 1

-- `time.Duration(d.Interval) * time.Second`, a product of int64.
unfoldable pub device_interval : Device → ℤ
device_interval d = to_int64 (d.interval * Dispatch.second)

-- What a poll took, FinishedAt.Sub(StartedAt), as the bit pattern of an int64; the zero time is so
-- far back that the difference is the least int64.
unfoldable pub elapsed : ℕ → Option ℕ → ℕ
elapsed started none = 9223372036854775808
elapsed started (some finished) =
    if leb started finished then finished - started else 18446744073709551616 - (started - finished)

abbrev pub listed : ℕ → List Device → Bool
listed id [] = false
listed id (d ∷ ds) = d.id == id || listed id ds

module _ {F : Type 0} where
  unfoldable pub schedule_device : ℕ → Device → Scheduler F → Scheduler F
  schedule_device now d s =
      let dispatcher = Dispatch.upsert now d (device_priority d) (device_interval d) s.dispatcher in
      record s { dispatcher = dispatcher; job_count = Dispatch.count dispatcher }

  unfoldable pub unschedule_device : ℕ → Scheduler F → Scheduler F
  unschedule_device id s = record s {
    dispatcher = Dispatch.remove id s.dispatcher;
    state_tracker = Tracker.remove id s.state_tracker;
    job_count = Dispatch.count (Dispatch.remove id s.dispatcher);
  }

  unfoldable pub schedule_all : ℕ → List Device → Scheduler F → Scheduler F
  unfolding schedule_device
  schedule_all now [] s = s
  schedule_all now (d ∷ ds) s = schedule_all now ds (schedule_device now d s)

  unfoldable pub remove_unless : Bool → ℕ → Scheduler F → Scheduler F
  remove_unless true id s = s
  remove_unless false id s = record s {
    dispatcher = Dispatch.remove id s.dispatcher;
    state_tracker = Tracker.remove id s.state_tracker;
  }

  -- The devices of the dispatcher that are not listed are removed there and in the tracker.
  unfoldable pub remove_unlisted : List Device → List ℕ → Scheduler F → Scheduler F
  unfolding remove_unless
  remove_unlisted ds [] s = s
  remove_unlisted ds (id ∷ ids) s = remove_unlisted ds ids (remove_unless (listed id ds) id s)

  -- Nothing changes if the devices could not be fetched.
  unfoldable pub reconcile : ℕ → Option (List Device) → Scheduler F → Scheduler F
  unfolding schedule_all remove_unlisted
  reconcile now none s = s
  reconcile now (some ds) s =
      let t = schedule_all now ds s in
      let u = remove_unlisted ds (Dispatch.device_ids t.dispatcher) t in
      record u { job_count = Dispatch.count u.dispatcher }

  -- isDownResult
  unfoldable pub is_down_result : PollResult F → Bool
  is_down_result pr = has_error pr.error || str_eq pr.status "down"

  -- The results that say nothing about the device.
  abbrev pub is_operational : PollResult F → Bool
  is_operational pr = has_error pr.error && str_eq pr.status ""

  abbrev pub record_outcome : ℕ → PollResult F → Scheduler F → Scheduler F
  record_outcome now pr s =
      if is_down_result pr
      then record s {
        dispatcher = Dispatch.record_failure now pr.device.id s.dispatcher;
        state_tracker = Tracker.record_failure now pr.device.id s.state_tracker;
      }
      else record s {
        dispatcher = Dispatch.record_success now pr.device.id s.dispatcher;
        state_tracker =
            Tracker.record_success now pr.device.id (elapsed pr.started_at pr.finished_at)
              s.state_tracker;
      }

  unfoldable pub handle_poll_result : ℕ → PollResult F → Scheduler F → Scheduler F
  unfolding is_down_result
  handle_poll_result now pr s =
      let t = record s { dispatcher = Dispatch.done pr.device.id s.dispatcher } in
      let u = record_outcome now pr t in
      let v = record u {
        dispatcher = Dispatch.record_status pr.device.id pr.status u.dispatcher;
        pipeline = submit pr u.pipeline;
      } in
      if is_operational pr then t else v
