-- ===== src/Scheduler/PollDispatcher/Defs.antt =====
-- poll_dispatcher.go: the entries, the schedule and the operations of the dispatcher. Times and
-- durations are nanoseconds; the clock's reading is an argument. A pointer to an entry is its
-- device's id, so the heap is a collection of ids and `device_map` holds what they point to. Of
-- container/heap the code relies on this alone: element 0 is one with the least NextPollAt.
use rayavriti_netmonitor.Common.{
  ℕ, suc, ◌+◌, ◌*◌, ◌%◌, Bool, true, false, not, ◌&&◌, List, [], ◌∷◌, ◌++◌, map, Option, none, some,
  String, leb, ltb, ◌==◌, str_eq, length, if◌then◌else◌,
}
use rayavriti_netmonitor.Common.Int.{
  ℤ, pos, to_int64, is_nonpositive, ltb_pos, to_nat, div_trunc, add_duration,
}
use rayavriti_netmonitor.Common.Assoc.{lookup, insert, erase, count_values, nat_eq}
use rayavriti_netmonitor.Scheduler.Types.{
  DeviceState, healthy, unreachable, paused, is_unreachable, is_paused, Device,
}

-- `interval` is positive once Upsert has clamped it.
pub record ScheduleEntry : Type 0 where
  pub device_id : ℕ
  pub device : Device
  pub priority : ℕ
  pub interval : ℕ
  pub next_poll_at : ℕ
  pub state : DeviceState
  pub failures : ℕ
  pub last_status : String
  pub in_flight : Bool

abbrev pub Entries : Type 0
Entries = List (ℕ × ScheduleEntry)

-- `wakeup` tells whether the channel of capacity one holds a signal.
pub record Dispatcher : Type 0 where
  pub schedule : List ℕ
  pub device_map : Entries
  pub interval : ℤ
  pub wakeup : Bool
  pub splay : Bool

unfoldable pub new_dispatcher : ℤ → Dispatcher
new_dispatcher default_interval = record {
  schedule = [];
  device_map = [];
  interval = default_interval;
  wakeup = false;
  splay = false;
}

unfoldable pub begin_initial_load : Dispatcher → Dispatcher
begin_initial_load d = record d { splay = true }

unfoldable pub end_initial_load : Dispatcher → Dispatcher
end_initial_load d = record d { splay = false }

abbrev pub second : ℕ
second = 1000000000

abbrev pub day : ℕ
day = 86400000000000

-- splayOffset: the product is one of uint64.
unfoldable pub splay_offset : ℕ → ℕ → ℕ
splay_offset id interval =
    if leb interval 0 then 0 else ((id * 0x9E3779B97F4A7C15) % 18446744073709551616) % interval

-- The product is one of int64, and wraps.
unfoldable pub effective_interval : ScheduleEntry → ℤ
unfolding to_int64
effective_interval e =
    if leb 10 e.failures
    then to_int64 (e.interval * 8)
    else if leb 3 e.failures
    then to_int64 (e.interval * 4)
    else if leb 2 e.failures
    then to_int64 (e.interval * 2)
    else pos e.interval

-- The interval that Upsert stores: the default for one that is not positive, and at least 5 s.
unfoldable pub clamp_interval : ℤ → ℤ → ℕ
clamp_interval interval default_interval =
    let chosen = if is_nonpositive interval then default_interval else interval in
    if ltb_pos chosen 5000000000 then 5000000000 else to_nat chosen

-- heap.Remove on the pointer to the device's entry.
unfoldable pub remove_id : ℕ → List ℕ → List ℕ
remove_id id [] = []
remove_id id (j ∷ ids) = let rest = remove_id id ids in if j == id then ids else j ∷ rest

-- An existing entry: the new data, and a new time if the interval changed and it is not paused.
unfoldable pub refresh_entry : ℕ → Device → ℕ → ℕ → ScheduleEntry → ScheduleEntry
unfolding effective_interval
refresh_entry now device priority interval e =
    let fresh = record e { device = device; priority = priority; interval = interval } in
    if not (e.interval == interval) && not (is_paused e.state)
    then record fresh { next_poll_at = add_duration now (effective_interval fresh) }
    else fresh

-- Whether the change of interval wakes the dispatcher.
abbrev pub shortened : ℕ → ScheduleEntry → Bool
shortened interval e =
    not (e.interval == interval) && (not (is_paused e.state) && ltb interval e.interval)

unfoldable pub new_entry : ℕ → Bool → Device → ℕ → ℕ → ScheduleEntry
new_entry now splay device priority interval = record {
  device_id = device.id;
  device = device;
  priority = priority;
  interval = interval;
  next_poll_at = if splay then now + splay_offset device.id interval else now;
  state = healthy;
  failures = 0;
  last_status = "";
  in_flight = false;
}

unfoldable pub upsert_at : ℕ → Device → ℕ → ℕ → Option ScheduleEntry → Dispatcher → Dispatcher
upsert_at now device priority interval (some e) d = record d {
  device_map = insert device.id (refresh_entry now device priority interval e) d.device_map;
  wakeup = if shortened interval e then true else d.wakeup;
}
upsert_at now device priority interval none d = record d {
  device_map = insert device.id (new_entry now d.splay device priority interval) d.device_map;
  schedule = d.schedule ++ device.id ∷ [];
  wakeup = true;
}

unfoldable pub upsert : ℕ → Device → ℕ → ℤ → Dispatcher → Dispatcher
unfolding upsert_at
upsert now device priority interval d =
    upsert_at now device priority (clamp_interval interval d.interval)
      (lookup device.id d.device_map) d

unfoldable pub remove_at : ℕ → Option ScheduleEntry → Dispatcher → Dispatcher
remove_at id none d = d
remove_at id (some e) d = record d {
  schedule = remove_id id d.schedule;
  device_map = erase id d.device_map;
}

unfoldable pub remove : ℕ → Dispatcher → Dispatcher
unfolding remove_at
remove id d = remove_at id (lookup id d.device_map) d

-- A write to the entry of a device, if there is one. heap.Fix restores the heap's order, and with
-- it what element 0 is; the collection of pointers stays the same.
unfoldable pub update_at :
    (ScheduleEntry → ScheduleEntry) → ℕ → Option ScheduleEntry → Dispatcher → Dispatcher
update_at f id none d = d
update_at f id (some e) d = record d { device_map = insert id (f e) d.device_map }

unfoldable pub update : (ScheduleEntry → ScheduleEntry) → ℕ → Dispatcher → Dispatcher
unfolding update_at
update f id d = update_at f id (lookup id d.device_map) d

unfoldable pub done : ℕ → Dispatcher → Dispatcher
unfolding update
done id d = update (λ e. record e { in_flight = false }) id d

unfoldable pub pause : ℕ → Dispatcher → Dispatcher
unfolding update
pause id d = update (λ e. record e { state = paused }) id d

abbrev pub wake_if_found : Option ScheduleEntry → Dispatcher → Dispatcher
wake_if_found none d = d
wake_if_found (some e) d = record d { wakeup = true }

abbrev pub resumed : ℕ → ScheduleEntry → ScheduleEntry
resumed now e = record e { state = healthy; failures = 0; next_poll_at = now }

unfoldable pub resume : ℕ → ℕ → Dispatcher → Dispatcher
unfolding update
resume now id d = wake_if_found (lookup id d.device_map) (update (resumed now) id d)

abbrev pub succeeded : ℕ → ScheduleEntry → ScheduleEntry
succeeded now e = record e {
  state = if is_unreachable e.state then healthy else e.state;
  failures = 0;
  next_poll_at = now + e.interval;
}

unfoldable pub record_success : ℕ → ℕ → Dispatcher → Dispatcher
unfolding update
record_success now id d = update (succeeded now) id d

unfoldable pub record_status : ℕ → String → Dispatcher → Dispatcher
unfolding update
record_status id status d =
    if str_eq status "" then d else update (λ e. record e { last_status = status }) id d

unfoldable pub failed : ℕ → ScheduleEntry → ScheduleEntry
unfolding effective_interval
failed now e =
    let counted = record e {
      failures = suc e.failures;
      state = if leb 3 (suc e.failures) then unreachable else e.state;
    } in
    record counted { next_poll_at = add_duration now (effective_interval counted) }

unfoldable pub record_failure : ℕ → ℕ → Dispatcher → Dispatcher
unfolding update
record_failure now id d = update (failed now) id d

-- A quarter of the interval, and at least two seconds.
unfoldable pub retry_delay : ScheduleEntry → ℤ
unfolding effective_interval
retry_delay e =
    let delay = div_trunc (effective_interval e) 4 in
    if ltb_pos delay 2000000000 then pos 2000000000 else delay

unfoldable pub retried : ℕ → ScheduleEntry → ScheduleEntry
unfolding retry_delay
retried now e = record e { in_flight = false; next_poll_at = add_duration now (retry_delay e) }

unfoldable pub retry_soon : ℕ → ℕ → Dispatcher → Dispatcher
unfolding update
retry_soon now id d = update (retried now) id d

unfoldable pub count : Dispatcher → ℕ
count d = length d.schedule

unfoldable pub device_ids : Dispatcher → List ℕ
device_ids d = map (λ b. b.0) d.device_map

unfoldable pub unreachable_count : Dispatcher → ℕ
unreachable_count d = count_values (λ e. is_unreachable e.state) d.device_map

unfoldable pub paused_count : Dispatcher → ℕ
paused_count d = count_values (λ e. is_paused e.state) d.device_map
