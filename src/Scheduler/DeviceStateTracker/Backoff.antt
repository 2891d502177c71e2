-- ===== src/Scheduler/DeviceStateTracker/Backoff.antt =====
-- Backoff in device_state_tracker.go: what holds of every tracked device after any sequence of
-- calls.
use rayavriti_netmonitor.Common.{
  ℕ, ◌-◌, ◌≤◌, ◌≡◌, refl, List, [], ◌∷◌, ◌++◌, length, arith, Option, none, some, ◌⊎◌, inl, inr,
  ◌≢◌, length-drop, ==_iff,
}
use rayavriti_netmonitor.Common.Assoc.{
  lookup, lookup-erase, lookup-insert_ne, nat_eq, Every, insert-Every, erase-Every, lookup-Every,
}
use rayavriti_netmonitor.Scheduler.Types.{paused}
use rayavriti_netmonitor.Scheduler.DeviceStateTracker.{
  Tracker, DeviceHealth, keep_last_ten, success_health, failure_health, failure_level,
  record_success, record_failure, pause, resume, remove, update_health, health_or_new, new_tracker,
  get_state,
}

pub data Op : Type 0 where
  success : ℕ → ℕ → Op  -- the time, the response time
  failure : ℕ → Op
  pausing resuming removing : Op

-- A call for device `id`.
unfoldable pub apply : Op → ℕ → Tracker → Tracker
apply (success now rt) id t = record_success now id rt t
apply (failure now) id t = record_failure now id t
apply pausing id t = pause id t
apply resuming id t = resume id t
apply removing id t = remove id t

unfoldable pub run : List (ℕ × Op) → Tracker → Tracker
run [] t = t
run ((id, op) ∷ ops) t = run ops (apply op id t)

-- The history is bounded, and the backoff is that of the number of failures in a row; the state
-- is too, but for a pause.
pub record IsSound (id : ℕ) (h : DeviceHealth) : Type 0 where
  pub keyed : h.device_id ≡ id
  pub bounded : length h.response_history ≤ 10
  pub multiplier : h.backoff_multiplier ≡ (failure_level h.consecutive_fails).1
  pub level : (h.state ≡ paused) ⊎ (h.state ≡ (failure_level h.consecutive_fails).0)

abbrev pub AllSound : Tracker → Type 0
AllSound = Every IsSound

pub length-keep_last_ten : (xs : List ℕ) → length (keep_last_ten xs) ≤ 10
unfolding keep_last_ten
length-keep_last_ten xs = ground (arith, length-drop (length xs - 10) xs)

success_health-IsSound :
    (now rt id : ℕ) (h : DeviceHealth) → h.device_id ≡ id → IsSound id (success_health now rt h)
unfolding success_health failure_level
success_health-IsSound now rt id h k = record {
  keyed = k;
  bounded = length-keep_last_ten (h.response_history ++ rt ∷ []);
  multiplier = refl;
  level = inr refl;
}

failure_health-IsSound :
    (now id : ℕ) (h : DeviceHealth)
    → h.device_id ≡ id
    → length h.response_history ≤ 10
    → IsSound id (failure_health now h)
unfolding failure_health
failure_health-IsSound now id h k b = record {
  keyed = k;
  bounded = b;
  multiplier = refl;
  level = inr refl;
}

health_or_new-IsKeyed :
    (id : ℕ) (o : Option DeviceHealth) (t : Tracker)
    → AllSound t
    → lookup id t ≡ o
    → ((health_or_new id o).device_id ≡ id) × (length (health_or_new id o).response_history ≤ 10)
health_or_new-IsKeyed id none t s e = (refl, omega arith)
health_or_new-IsKeyed id (some h) t s e =
    let v = lookup-Every IsSound t id h s e in (v.keyed, v.bounded)

-- A write through a pointer keeps the entries sound if it keeps that one sound.
update-AllSound :
    (f : DeviceHealth → DeviceHealth) (id : ℕ) (o : Option DeviceHealth) (t : Tracker)
    → ((h : DeviceHealth) → IsSound id h → IsSound id (f h))
    → lookup id t ≡ o
    → AllSound t
    → AllSound (update_health f o id t)
update-AllSound f id none t keep e s = s
update-AllSound f id (some h) t keep e s =
    insert-Every IsSound id (f h) t s (keep h (lookup-Every IsSound t id h s e))

apply-AllSound : (op : Op) (id : ℕ) (t : Tracker) → AllSound t → AllSound (apply op id t)
unfolding apply record_success record_failure pause resume remove failure_level
apply-AllSound (success now rt) id t s =
    insert-Every IsSound id _ t s
      (success_health-IsSound now rt id _ (health_or_new-IsKeyed id (lookup id t) t s refl).0)
apply-AllSound (failure now) id t s =
    let (keyed, bounded) = health_or_new-IsKeyed id (lookup id t) t s refl in
    insert-Every IsSound id _ t s (failure_health-IsSound now id _ keyed bounded)
apply-AllSound pausing id t s =
    update-AllSound _ id (lookup id t) t
      (λ h v. record {
        keyed = v.keyed;
        bounded = v.bounded;
        multiplier = v.multiplier;
        level = inl refl;
      })
      refl s
apply-AllSound resuming id t s =
    update-AllSound _ id (lookup id t) t
      (λ h v. record { keyed = v.keyed; bounded = v.bounded; multiplier = refl; level = inr refl })
      refl s
apply-AllSound removing id t s = erase-Every IsSound id t s

run-AllSound : (ops : List (ℕ × Op)) (t : Tracker) → AllSound t → AllSound (run ops t)
unfolding run
run-AllSound [] t s = s
run-AllSound ((id, op) ∷ ops) t s = run-AllSound ops (apply op id t) (apply-AllSound op id t s)

-- Whatever calls are made on a new tracker, in whatever order, an entry that is there afterwards
-- is filed under its own id, keeps at most ten response times, has the multiplier of its number
-- of consecutive failures, and has the state of that number unless it is paused.
pub run-IsSound :
    (ops : List (ℕ × Op)) (id : ℕ) (h : DeviceHealth)
    → get_state id (run ops new_tracker) ≡ some h
    → IsSound id h
unfolding get_state
run-IsSound ops id h e = lookup-Every IsSound _ id h (run-AllSound ops new_tracker tt) e

update-other :
    (f : DeviceHealth → DeviceHealth) (id j : ℕ) (o : Option DeviceHealth) (t : Tracker)
    → id ≢ j
    → lookup j (update_health f o id t) ≡ lookup j t
update-other f id j none t h = refl
update-other f id j (some v) t h = lookup-insert_ne id j (f v) t h

-- A call for one device leaves what is known of every other device as it was.
pub apply-other :
    (op : Op) (id j : ℕ) (t : Tracker) → id ≢ j → lookup j (apply op id t) ≡ lookup j t
unfolding apply record_success record_failure pause resume remove
apply-other (success now rt) id j t h = lookup-insert_ne id j _ t h
apply-other (failure now) id j t h = lookup-insert_ne id j _ t h
apply-other pausing id j t h = update-other _ id j (lookup id t) t h
apply-other resuming id j t h = update-other _ id j (lookup id t) t h
apply-other removing id j t h = ground (arith, lookup-erase id j t, ==_iff id j)
