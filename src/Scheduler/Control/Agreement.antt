-- ===== src/Scheduler/Control/Agreement.antt =====
-- scheduler.go: the dispatcher and the state tracker count the same failures.
use rayavriti_netmonitor.Common.{
  ℕ, Bool, true, false, Option, none, some, ◌≡◌, refl, ap, ◌∙◌, ◌==◌, ==_iff, if◌then◌else◌, arith,
  Bool-cases, inl, inr,
}
use rayavriti_netmonitor.Common.Assoc.{lookup, insert, lookup-insert, erase, lookup-erase, nat_eq}
use rayavriti_netmonitor.Scheduler.Types.{Device}
use rayavriti_netmonitor.Scheduler.DeviceStateTracker as Tracker
use rayavriti_netmonitor.Scheduler.PollDispatcher.Defs as Dispatch
use rayavriti_netmonitor.Scheduler.PollDispatcher.Defs.{ScheduleEntry, Entries, Dispatcher}
use rayavriti_netmonitor.Scheduler.PollDispatcher.Invariant.{is_some}

-- A scheduled device's failures are those of its health, or none if it has no health yet; a device
-- that is not scheduled has no health.
abbrev pub agree : Option ScheduleEntry → Option Tracker.DeviceHealth → Bool
agree none none = true
agree none (some h) = false
agree (some e) none = e.failures == 0
agree (some e) (some h) = e.failures == h.consecutive_fails

abbrev pub AgreesAt : ℕ → Dispatcher → Tracker.Tracker → Type 0
AgreesAt id d t = agree (lookup id d.device_map) (lookup id t) ≡ true

abbrev pub map_entry : (ScheduleEntry → ScheduleEntry) → Option ScheduleEntry → Option ScheduleEntry
map_entry f none = none
map_entry f (some e) = some (f e)

update_at-lookup :
    (f : ScheduleEntry → ScheduleEntry) (id j : ℕ) (o : Option ScheduleEntry) (d : Dispatcher)
    → lookup id d.device_map ≡ o
    → lookup j (Dispatch.update_at f id o d).device_map
      ≡ (if id == j then map_entry f o else lookup j d.device_map)
unfolding Dispatch.update_at
update_at-lookup f id j none d e = elim (Bool-cases (id == j)) [
  | inl same ↦ rw same (rw ((==_iff id j).0 same) at e)
  | inr other ↦ rw other refl
]
update_at-lookup f id j (some v) d e = lookup-insert id j (f v) d.device_map

pub update-lookup :
    (f : ScheduleEntry → ScheduleEntry) (id j : ℕ) (d : Dispatcher)
    → lookup j (Dispatch.update f id d).device_map
      ≡ (if id == j then map_entry f (lookup id d.device_map) else lookup j d.device_map)
unfolding Dispatch.update
update-lookup f id j d = update_at-lookup f id j (lookup id d.device_map) d refl

abbrev SameFailures : (ScheduleEntry → ScheduleEntry) → Type 0
SameFailures f = (e : ScheduleEntry) → (f e).failures ≡ e.failures

agree-map_entry :
    (f : ScheduleEntry → ScheduleEntry) (o : Option ScheduleEntry) (h : Option Tracker.DeviceHealth)
    → SameFailures f
    → agree (map_entry f o) h ≡ agree o h
agree-map_entry f none none same = refl
agree-map_entry f none (some h) same = refl
agree-map_entry f (some e) none same = ap (λ n. n == 0) (same e)
agree-map_entry f (some e) (some h) same = ap (λ n. n == h.consecutive_fails) (same e)

-- A write that keeps the failures keeps the agreement.
pub update-AgreesAt :
    (f : ScheduleEntry → ScheduleEntry) (id j : ℕ) (d : Dispatcher) (t : Tracker.Tracker)
    → SameFailures f
    → AgreesAt j d t
    → AgreesAt j (Dispatch.update f id d) t
update-AgreesAt f id j d t same a = elim (Bool-cases (id == j)) [
  | inl here ↦
      let at_id = update-lookup f id j d in
      let moved = (==_iff id j).0 here in
      rw at_id (rw here (agree-map_entry f (lookup id d.device_map) (lookup j t) same ∙ rw moved a))
  | inr other ↦ rw (update-lookup f id j d) (rw other a)
]

-- A write to both keeps the agreement if the written values agree.
pub update-insert-AgreesAt :
    (f : ScheduleEntry → ScheduleEntry) (h : Tracker.DeviceHealth) (id j : ℕ) (d : Dispatcher)
    (t : Tracker.Tracker)
    → agree (map_entry f (lookup id d.device_map)) (some h) ≡ true
    → AgreesAt j d t
    → AgreesAt j (Dispatch.update f id d) (insert id h t)
update-insert-AgreesAt f h id j d t written a = elim (Bool-cases (id == j)) [
  | inl here ↦ rw (update-lookup f id j d) (rw (lookup-insert id j h t) (rw here written))
  | inr other ↦ rw (update-lookup f id j d) (rw (lookup-insert id j h t) (rw other a))
]

pub failed-agree :
    (now id : ℕ) (o : Option ScheduleEntry) (h : Option Tracker.DeviceHealth)
    → is_some o ≡ true
    → agree o h ≡ true
    → agree
        (map_entry (Dispatch.failed now) o)
        (some (Tracker.failure_health now (Tracker.health_or_new id h)))
      ≡ true
unfolding Dispatch.failed Tracker.failure_health
failed-agree now id none h found a = cc
failed-agree now id (some e) none found a = ground arith
failed-agree now id (some e) (some h) found a = ground arith

pub succeeded-agree :
    (now time id : ℕ) (o : Option ScheduleEntry) (h : Option Tracker.DeviceHealth)
    → is_some o ≡ true
    → agree
        (map_entry (Dispatch.succeeded now) o)
        (some (Tracker.success_health now time (Tracker.health_or_new id h)))
      ≡ true
unfolding Tracker.success_health
succeeded-agree now time id none h found = cc
succeeded-agree now time id (some e) h found = refl

insert-AgreesAt :
    (e : ScheduleEntry) (id j : ℕ) (m : Entries) (t : Tracker.Tracker)
    → agree (some e) (lookup id t) ≡ true
    → agree (lookup j m) (lookup j t) ≡ true
    → agree (lookup j (insert id e m)) (lookup j t) ≡ true
insert-AgreesAt e id j m t written a = elim (Bool-cases (id == j)) [
  | inl here ↦
      let there = rw ((==_iff id j).0 here) at written in
      rw (lookup-insert id j e m) (rw here there)
  | inr other ↦ rw (lookup-insert id j e m) (rw other a)
]

new_entry-agree :
    (now : ℕ) (splay : Bool) (device : Device) (p i : ℕ) (h : Option Tracker.DeviceHealth)
    → agree none h ≡ true
    → agree (some (Dispatch.new_entry now splay device p i)) h ≡ true
unfolding Dispatch.new_entry
new_entry-agree now splay device p i none a = refl
new_entry-agree now splay device p i (some h) a = cc

refresh_entry-failures :
    (now : ℕ) (device : Device) (p i : ℕ) (e : ScheduleEntry)
    → (Dispatch.refresh_entry now device p i e).failures ≡ e.failures
unfolding Dispatch.refresh_entry
refresh_entry-failures now device p i e = ground arith

pub upsert_at-AgreesAt :
    (now : ℕ) (device : Device) (p i j : ℕ) (o : Option ScheduleEntry) (d : Dispatcher)
    (t : Tracker.Tracker)
    → agree o (lookup device.id t) ≡ true
    → AgreesAt j d t
    → AgreesAt j (Dispatch.upsert_at now device p i o d) t
unfolding Dispatch.upsert_at
upsert_at-AgreesAt now device p i j none d t own a =
    insert-AgreesAt (Dispatch.new_entry now d.splay device p i) device.id j d.device_map t
      (new_entry-agree now d.splay device p i (lookup device.id t) own) a
upsert_at-AgreesAt now device p i j (some e) d t own a =
    insert-AgreesAt (Dispatch.refresh_entry now device p i e) device.id j d.device_map t
      (agree-map_entry (Dispatch.refresh_entry now device p i) (some e) (lookup device.id t)
          (refresh_entry-failures now device p i)
        ∙ own)
      a

pub remove_at-AgreesAt :
    (id j : ℕ) (o : Option ScheduleEntry) (d : Dispatcher) (t : Tracker.Tracker)
    → lookup id d.device_map ≡ o
    → AgreesAt j d t
    → AgreesAt j (Dispatch.remove_at id o d) (erase id t)
unfolding Dispatch.remove_at
remove_at-AgreesAt id j none d t e a = elim (Bool-cases (id == j)) [
  | inl here ↦
      let gone = rw ((==_iff id j).0 here) at e in rw (lookup-erase id j t) (rw here (rw gone refl))
  | inr other ↦ rw (lookup-erase id j t) (rw other a)
]
remove_at-AgreesAt id j (some v) d t e a = elim (Bool-cases (id == j)) [
  | inl here ↦ rw (lookup-erase id j t) (rw (lookup-erase id j d.device_map) (rw here refl))
  | inr other ↦ rw (lookup-erase id j t) (rw (lookup-erase id j d.device_map) (rw other a))
]
