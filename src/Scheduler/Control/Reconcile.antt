-- ===== src/Scheduler/Control/Reconcile.antt =====
-- scheduler.go: after a reconciliation exactly the listed devices are scheduled.
use rayavriti_netmonitor.Common.{
  ℕ, Bool, true, false, not, ◌||◌, ◌&&◌, ap, List, [], ◌∷◌, map, Option, none, some, ◌≡◌, refl,
  ◌==◌, ==_iff, if◌then◌else◌, arith,
}
use rayavriti_netmonitor.Common.Int.{ℤ}
use rayavriti_netmonitor.Common.Assoc.{lookup, insert, lookup-insert, lookup-erase, nat_eq}
use rayavriti_netmonitor.Scheduler.Types.{Device}
use rayavriti_netmonitor.Scheduler.DeviceStateTracker as Tracker
use rayavriti_netmonitor.Scheduler.PollDispatcher.Defs.{
  Entries, ScheduleEntry, Dispatcher, upsert, upsert_at, remove, remove_at, clamp_interval,
  device_ids, update, update_at,
}
use rayavriti_netmonitor.Scheduler.PollDispatcher.Invariant.{is_some}
use rayavriti_netmonitor.Scheduler.Control.{
  Scheduler, device_priority, device_interval, listed, schedule_device, schedule_all,
  remove_unlisted, remove_unless, reconcile,
}

abbrev pub has : ℕ → Dispatcher → Bool
has id d = is_some (lookup id d.device_map)

has-insert :
    (id j : ℕ) (v : ScheduleEntry) (m : Entries)
    → is_some (lookup id (insert j v m)) ≡ (j == id || is_some (lookup id m))
has-insert id j v m = ground (arith, lookup-insert j id v m)

upsert_at-has :
    (id now : ℕ) (device : Device) (p i : ℕ) (o : Option ScheduleEntry) (d : Dispatcher)
    → has id (upsert_at now device p i o d) ≡ (device.id == id || has id d)
unfolding upsert_at
upsert_at-has id now device p i none d = has-insert id device.id _ d.device_map
upsert_at-has id now device p i (some e) d = has-insert id device.id _ d.device_map

pub upsert-has :
    (id now : ℕ) (device : Device) (p : ℕ) (i : ℤ) (d : Dispatcher)
    → has id (upsert now device p i d) ≡ (device.id == id || has id d)
unfolding upsert
upsert-has id now device p i d =
    upsert_at-has id now device p (clamp_interval i d.interval) (lookup device.id d.device_map) d

remove_at-has :
    (id j : ℕ) (o : Option ScheduleEntry) (d : Dispatcher)
    → lookup j d.device_map ≡ o
    → has id (remove_at j o d) ≡ (if j == id then false else has id d)
unfolding remove_at
remove_at-has id j none d e = ground (arith, e, ==_iff j id)
remove_at-has id j (some v) d e = ground (arith, lookup-erase j id d.device_map)

pub remove-has :
    (id j : ℕ) (d : Dispatcher) → has id (remove j d) ≡ (if j == id then false else has id d)
unfolding remove
remove-has id j d = remove_at-has id j (lookup j d.device_map) d refl

update_at-has :
    (f : ScheduleEntry → ScheduleEntry) (id j : ℕ) (o : Option ScheduleEntry) (d : Dispatcher)
    → lookup j d.device_map ≡ o
    → has id (update_at f j o d) ≡ has id d
unfolding update_at
update_at-has f id j none d e = refl
update_at-has f id j (some v) d e =
    ground (arith, has-insert id j (f v) d.device_map, ==_iff j id, e)

pub update-has :
    (f : ScheduleEntry → ScheduleEntry) (id j : ℕ) (d : Dispatcher)
    → has id (update f j d) ≡ has id d
unfolding update
update-has f id j d = update_at-has f id j (lookup j d.device_map) d refl

-- Whether an id is among some ids.
abbrev among : ℕ → List ℕ → Bool
among id [] = false
among id (j ∷ ids) = j == id || among id ids

device_ids_lem : (id : ℕ) (d : Dispatcher) → among id (device_ids d) ≡ has id d
unfolding device_ids
device_ids_lem id d = keys d.device_map
  where
    keys : (m : List (ℕ × ScheduleEntry)) → among id (map (λ b. b.0) m) ≡ is_some (lookup id m)
    keys [] = refl
    keys ((j, e) ∷ m) = ground (arith, keys m)

same_listed : (id j : ℕ) (ds : List Device) → (j == id) ≡ true → listed j ds ≡ listed id ds
same_listed id j ds e = ap (λ k. listed k ds) ((==_iff j id).0 e)

module _ {F : Type 0} where
  schedule_all-has :
      (id now : ℕ) (ds : List Device) (s : Scheduler F)
      → has id (schedule_all now ds s).dispatcher ≡ (listed id ds || has id s.dispatcher)
  unfolding schedule_all schedule_device
  schedule_all-has id now [] s = refl
  schedule_all-has id now (d ∷ ds) s = ground (
    arith,
    schedule_all-has id now ds (schedule_device now d s),
    upsert-has id now d (device_priority d) (device_interval d) s.dispatcher,
  )

  remove_unless-has :
      (id j : ℕ) (b : Bool) (s : Scheduler F)
      → has id (remove_unless b j s).dispatcher
        ≡ (if b then has id s.dispatcher else if j == id then false else has id s.dispatcher)
  unfolding remove_unless
  remove_unless-has id j true s = refl
  remove_unless-has id j false s = remove-has id j s.dispatcher

  remove_unlisted-has :
      (id : ℕ) (ds : List Device) (ids : List ℕ) (s : Scheduler F)
      → has id (remove_unlisted ds ids s).dispatcher
        ≡ (if among id ids && not (listed id ds) then false else has id s.dispatcher)
  unfolding remove_unlisted
  remove_unlisted-has id ds [] s = refl
  remove_unlisted-has id ds (j ∷ ids) s = ground (
    arith,
    remove_unlisted-has id ds ids (remove_unless (listed j ds) j s),
    remove_unless-has id j (listed j ds) s,
    same_listed id j ds,
  )

  schedule_all-tracker :
      (now : ℕ) (ds : List Device) (s : Scheduler F)
      → (schedule_all now ds s).state_tracker ≡ s.state_tracker
  unfolding schedule_all schedule_device
  schedule_all-tracker now [] s = refl
  schedule_all-tracker now (d ∷ ds) s = schedule_all-tracker now ds (schedule_device now d s)

  remove_unless-tracker :
      (id j : ℕ) (b : Bool) (s : Scheduler F)
      → lookup id (remove_unless b j s).state_tracker ≡ (
          if b
          then lookup id s.state_tracker
          else if j == id
          then none
          else lookup id s.state_tracker)
  unfolding remove_unless Tracker.remove
  remove_unless-tracker id j true s = refl
  remove_unless-tracker id j false s = lookup-erase j id s.state_tracker

  remove_unlisted-tracker :
      (id : ℕ) (ds : List Device) (ids : List ℕ) (s : Scheduler F)
      → lookup id (remove_unlisted ds ids s).state_tracker
        ≡ (if among id ids && not (listed id ds) then none else lookup id s.state_tracker)
  unfolding remove_unlisted
  remove_unlisted-tracker id ds [] s = refl
  remove_unlisted-tracker id ds (j ∷ ids) s = ground (
    arith,
    remove_unlisted-tracker id ds ids (remove_unless (listed j ds) j s),
    remove_unless-tracker id j (listed j ds) s,
    same_listed id j ds,
  )

  -- After a reconciliation with a list of devices, a device is scheduled if and only if it is listed.
  pub reconcile-has :
      (id now : ℕ) (ds : List Device) (s : Scheduler F)
      → has id (reconcile now (some ds) s).dispatcher ≡ listed id ds
  unfolding reconcile
  reconcile-has id now ds s =
      let t = schedule_all now ds s in
      ground (
        arith,
        remove_unlisted-has id ds (device_ids t.dispatcher) t,
        device_ids_lem id t.dispatcher,
        schedule_all-has id now ds s,
      )

  -- A reconciliation with a list of devices keeps the health of those listed, and of the others
  -- drops it for the scheduled ones alone.
  pub reconcile-tracker :
      (id now : ℕ) (ds : List Device) (s : Scheduler F)
      → lookup id (reconcile now (some ds) s).state_tracker
        ≡ (if not (listed id ds) && has id s.dispatcher then none else lookup id s.state_tracker)
  unfolding reconcile
  reconcile-tracker id now ds s =
      let t = schedule_all now ds s in
      ground (
        arith,
        remove_unlisted-tracker id ds (device_ids t.dispatcher) t,
        device_ids_lem id t.dispatcher,
        schedule_all-has id now ds s,
        schedule_all-tracker now ds s,
      )
