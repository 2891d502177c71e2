-- ===== src/Scheduler/PollDispatcher/Invariant.antt =====
-- What every operation of poll_dispatcher.go keeps: the heap and the map hold the same devices,
-- and each entry is one that Upsert made.
use rayavriti_netmonitor.Common.{
  one_if, ℕ, ◌≤◌, ◌<◌, ◌≡◌, refl, Bool, true, false, List, [], ◌∷◌, ◌++◌, Option, none, some, ◌==◌,
  ==_iff, count_if-append, arith,
}
use rayavriti_netmonitor.Common.Int.{ℤ, ltb_pos}
use rayavriti_netmonitor.Common.Assoc.{
  lookup, insert, erase, lookup-insert, lookup-erase, Every, insert-Every, erase-Every,
  lookup-Every, nat_eq,
}
use rayavriti_netmonitor.Scheduler.Types.{Device}
use rayavriti_netmonitor.Scheduler.PollDispatcher.Defs.{
  ScheduleEntry, Entries, Dispatcher, clamp_interval, remove_id, refresh_entry, new_entry,
  upsert_at, remove_at, update, update_at, wake_if_found, failed, retried, retry_soon,
}
use rayavriti_netmonitor.Scheduler.PollDispatcher.Schedule.{occurrences, count_if-remove_id}

-- An entry is filed under its device, and its interval is in the range where eight times it is
-- still an int64 (36 years).
pub record EntryOk (id : ℕ) (e : ScheduleEntry) : Type 0 where
  pub keyed : e.device_id ≡ id
  pub device_keyed : e.device.id ≡ id
  pub at_least : 5000000000 ≤ e.interval
  pub at_most : e.interval < 1152921504606846976

abbrev pub is_some {ℓ} : {A : Type ℓ} → Option A → Bool
is_some none = false
is_some (some a) = true

-- Each id stands in the heap once if the map has it, and else not at all.
abbrev pub IsSynced : List ℕ → Entries → Type 0
IsSynced ids m = (id : ℕ) → occurrences id ids ≡ one_if (is_some (lookup id m))

pub record IsValid (d : Dispatcher) : Type 0 where
  pub entries : Every EntryOk d.device_map
  pub synced : IsSynced d.schedule d.device_map
  pub default_at_most : ltb_pos d.interval 1152921504606846976 ≡ true

-- Writing to an entry that is there changes no key.
pub insert-IsSynced :
    (ids : List ℕ) (m : Entries) (id : ℕ) (e f : ScheduleEntry)
    → lookup id m ≡ some e
    → IsSynced ids m
    → IsSynced ids (insert id f m)
insert-IsSynced ids m id e f found s j =
    ground (arith, s j, lookup-insert id j f m, ==_iff id j, s id)

push-IsSynced :
    (ids : List ℕ) (m : Entries) (id : ℕ) (f : ScheduleEntry)
    → lookup id m ≡ none
    → IsSynced ids m
    → IsSynced (ids ++ id ∷ []) (insert id f m)
push-IsSynced ids m id f missing s j = ground (
  arith,
  s j,
  lookup-insert id j f m,
  ==_iff id j,
  s id,
  count_if-append (λ k. k == j) ids (id ∷ []),
)

erase-IsSynced :
    (ids : List ℕ) (m : Entries) (id : ℕ) (e : ScheduleEntry)
    → lookup id m ≡ some e
    → IsSynced ids m
    → IsSynced (remove_id id ids) (erase id m)
erase-IsSynced ids m id e found s j =
    let here : 0 < occurrences id ids = ground (arith, s id) in
    ground (
      arith,
      s j,
      s id,
      lookup-erase id j m,
      ==_iff id j,
      count_if-remove_id (λ k. k == j) id ids here,
    )

pub clamp_interval_bounds :
    (interval default_interval : ℤ)
    → ltb_pos interval 1152921504606846976 ≡ true
    → ltb_pos default_interval 1152921504606846976 ≡ true
    → (5000000000 ≤ clamp_interval interval default_interval)
      × (clamp_interval interval default_interval < 1152921504606846976)
unfolding clamp_interval
clamp_interval_bounds interval default_interval h k = ground arith

refresh_entry-EntryOk :
    (now : ℕ) (device : Device) (priority interval : ℕ) (e : ScheduleEntry)
    → EntryOk device.id e
    → 5000000000 ≤ interval
    → interval < 1152921504606846976
    → EntryOk device.id (refresh_entry now device priority interval e)
unfolding refresh_entry
refresh_entry-EntryOk now device priority interval e v h k = ground arith

pub upsert_at-IsValid :
    (now : ℕ) (device : Device) (priority interval : ℕ) (o : Option ScheduleEntry) (d : Dispatcher)
    → lookup device.id d.device_map ≡ o
    → 5000000000 ≤ interval
    → interval < 1152921504606846976
    → IsValid d
    → IsValid (upsert_at now device priority interval o d)
unfolding upsert_at
upsert_at-IsValid now device priority interval (some e) d found h k v = record {
  entries = insert-Every EntryOk device.id _ d.device_map v.entries (
      refresh_entry-EntryOk now device priority interval e
        (lookup-Every EntryOk d.device_map device.id e v.entries found) h k);
  synced = insert-IsSynced d.schedule d.device_map device.id e _ found v.synced;
  default_at_most = v.default_at_most;
}
upsert_at-IsValid now device priority interval none d missing h k v =
    unfold new_entry in
    record {
      entries =
          insert-Every EntryOk device.id _ d.device_map v.entries
            (record { keyed = refl; device_keyed = refl; at_least = h; at_most = k });
      synced = push-IsSynced d.schedule d.device_map device.id _ missing v.synced;
      default_at_most = v.default_at_most;
    }

pub remove_at-IsValid :
    (id : ℕ) (o : Option ScheduleEntry) (d : Dispatcher)
    → lookup id d.device_map ≡ o
    → IsValid d
    → IsValid (remove_at id o d)
unfolding remove_at
remove_at-IsValid id none d e v = v
remove_at-IsValid id (some f) d e v = record {
  entries = erase-Every EntryOk id d.device_map v.entries;
  synced = erase-IsSynced d.schedule d.device_map id f e v.synced;
  default_at_most = v.default_at_most;
}

-- A write that keeps the device and the interval.
abbrev KeepsOk : (ScheduleEntry → ScheduleEntry) → Type 0
KeepsOk f = (id : ℕ) (e : ScheduleEntry) → EntryOk id e → EntryOk id (f e)

update_at-IsValid :
    (f : ScheduleEntry → ScheduleEntry) (id : ℕ) (o : Option ScheduleEntry) (d : Dispatcher)
    → KeepsOk f
    → lookup id d.device_map ≡ o
    → IsValid d
    → IsValid (update_at f id o d)
unfolding update_at
update_at-IsValid f id none d keep e v = v
update_at-IsValid f id (some g) d keep e v = record {
  entries =
      insert-Every EntryOk id (f g) d.device_map v.entries
        (keep id g (lookup-Every EntryOk d.device_map id g v.entries e));
  synced = insert-IsSynced d.schedule d.device_map id g (f g) e v.synced;
  default_at_most = v.default_at_most;
}

pub update-IsValid :
    (f : ScheduleEntry → ScheduleEntry) (id : ℕ) (d : Dispatcher)
    → KeepsOk f
    → IsValid d
    → IsValid (update f id d)
unfolding update
update-IsValid f id d keep v = update_at-IsValid f id (lookup id d.device_map) d keep refl v

pub wake_if_found-IsValid :
    (o : Option ScheduleEntry) (d : Dispatcher) → IsValid d → IsValid (wake_if_found o d)
wake_if_found-IsValid none d v = v
wake_if_found-IsValid (some e) d v = record {
  entries = v.entries;
  synced = v.synced;
  default_at_most = v.default_at_most;
}

retried-KeepsOk : (now : ℕ) → KeepsOk (retried now)
unfolding retried
retried-KeepsOk now id e v = assumption

pub failed-KeepsOk : (now : ℕ) → KeepsOk (failed now)
unfolding failed
failed-KeepsOk now id e v = assumption

pub retry_soon-IsValid : (now id : ℕ) (d : Dispatcher) → IsValid d → IsValid (retry_soon now id d)
unfolding retry_soon
retry_soon-IsValid now id d v = update-IsValid (retried now) id d (retried-KeepsOk now) v
