-- ===== src/Scheduler/DeviceStateTracker/Runs.antt =====
-- Runs of poll results for one device in device_state_tracker.go.
use rayavriti_netmonitor.Common.{
  ℕ, zero, suc, ◌+◌, ◌-◌, ◌*◌, ◌/◌, ◌%◌, ◌≤◌, ◌<◌, ◌≡◌, refl, List, [], ◌∷◌, ◌++◌, length, drop,
  arith, some, All, Bool-cases, ltb, inl, inr, ◌∙◌,
}
use rayavriti_netmonitor.Common.Int.{pos, to_int64, to_int64-small, div_trunc}
use rayavriti_netmonitor.Common.Assoc.{lookup-insert_self, nat_eq}
use rayavriti_netmonitor.Scheduler.DeviceStateTracker.Backoff.{length-keep_last_ten}
use rayavriti_netmonitor.Scheduler.DeviceStateTracker.{
  Tracker, DeviceHealth, total_from, keep_last_ten, success_health, failure_health, record_success,
  record_failure, get_state,
}

-- A failed poll at each of the times.
pub record_failures : List ℕ → ℕ → Tracker → Tracker
record_failures [] id t = t
record_failures (now ∷ nows) id t = record_failures nows id (record_failure now id t)

record_failure-found :
    (now id : ℕ) (t : Tracker) (h : DeviceHealth)
    → get_state id t ≡ some h
    → get_state id (record_failure now id t) ≡ some (failure_health now h)
unfolding record_failure get_state
record_failure-found now id t h e = rw e (lookup-insert_self id _ t)

record_failures-found :
    (nows : List ℕ) (id : ℕ) (t : Tracker) (h : DeviceHealth)
    → get_state id t ≡ some h
    → (g : DeviceHealth) × (get_state id (record_failures nows id t) ≡ some g)
      × (g.consecutive_fails ≡ h.consecutive_fails + length nows)
      × (g.last_success_at ≡ h.last_success_at)
unfolding record_failures failure_health
record_failures-found [] id t h e = (h, e, omega arith, refl)
record_failures-found (now ∷ nows) id t h e =
    let (g, found, total, last) =
      record_failures-found nows id (record_failure now id t) (failure_health now h)
        (record_failure-found now id t h e) in
    (g, found, omega (arith, total), last)

record_success-found :
    (now rt id : ℕ) (t : Tracker)
    → (h : DeviceHealth) × (get_state id (record_success now id rt t) ≡ some h)
      × (h.consecutive_fails ≡ 0)
      × (h.last_success_at ≡ some now)
unfolding record_success get_state success_health
record_success-found now rt id t = (_, lookup-insert_self id _ t, refl, refl)

-- After a success and then any number of failures, the entry counts those failures, and still
-- holds the time of that success.
pub success_then_failures :
    (now rt id : ℕ) (nows : List ℕ) (t : Tracker)
    → (g : DeviceHealth) × (get_state id (record_failures nows id (record_success now id rt t))
        ≡ some g)
      × (g.consecutive_fails ≡ length nows)
      × (g.last_success_at ≡ some now)
success_then_failures now rt id nows t =
    let (h, found, zero_fails, last) = record_success-found now rt id t in
    let (g, found', total, last') = record_failures-found nows id _ h found in
    (g, found', omega (arith, total, zero_fails), last' ∙ last)

total_from-le :
    (total m : ℕ) (ts : List ℕ)
    → All (λ t. t ≤ m) ts
    → total + m * length ts < 9223372036854775808
    → total_from total ts ≤ total + m * length ts
unfolding total_from
total_from-le total m [] b h = omega arith
total_from-le total m (t ∷ ts) b h =
    let small : (total + t) % 18446744073709551616 ≤ total + m = grind arith in
    let ih = total_from-le ((total + t) % 18446744073709551616) m ts b.1 (grind arith) in
    omega (arith, ih, small)

All-drop : (m n : ℕ) (ts : List ℕ) → All (λ t. t ≤ m) ts → All (λ t. t ≤ m) (drop n ts)
All-drop m zero ts b = b
All-drop m (suc n) [] b = tt
All-drop m (suc n) (t ∷ ts) b = All-drop m n ts b.1

All-snoc : (m t : ℕ) (ts : List ℕ) → All (λ t. t ≤ m) ts → t ≤ m → All (λ t. t ≤ m) (ts ++ t ∷ [])
All-snoc m t [] b h = (h, tt)
All-snoc m t (u ∷ ts) b h = (b.0, All-snoc m t ts b.1 h)

keep_last_ten-All :
    (m : ℕ) (ts : List ℕ) → All (λ t. t ≤ m) ts → All (λ t. t ≤ m) (keep_last_ten ts)
unfolding keep_last_ten
keep_last_ten-All m ts b = elim (Bool-cases (ltb 10 (length ts))) [
  | inl long ↦ rw long (All-drop m (length ts - 10) ts b)
  | inr short ↦ rw short b
]

-- An average of at most ten response times, none above `m`, lies between 0 and `m`: the sum does
-- not wrap.
average-le :
    (m : ℕ) (ts : List ℕ)
    → All (λ t. t ≤ m) ts
    → length ts ≤ 10
    → m * 10 < 9223372036854775808
    → (a : ℕ) × (div_trunc (to_int64 (total_from 0 ts)) (length ts) ≡ pos a) × (a ≤ m)
average-le m ts b n h =
    let total : total_from 0 ts ≤ 0 + m * length ts = total_from-le 0 m ts b (grind arith) in
    let below : total_from 0 ts < 9223372036854775808 = grind arith in
    (total_from 0 ts / length ts, rw (to_int64-small _ below), grind arith)

-- If the response times that a device has in its history, and the one just measured, are at most
-- `m`, then so is the average that `record_success` stores, and it is not negative.
pub average_bounded :
    (m now rt : ℕ) (h : DeviceHealth)
    → All (λ t. t ≤ m) h.response_history
    → rt ≤ m
    → m * 10 < 9223372036854775808
    → (a : ℕ) × ((success_health now rt h).avg_response_time ≡ pos a) × (a ≤ m)
unfolding success_health
average_bounded m now rt h b r small =
    average-le m (keep_last_ten (h.response_history ++ rt ∷ []))
      (keep_last_ten-All m _ (All-snoc m rt h.response_history b r))
      (length-keep_last_ten (h.response_history ++ rt ∷ [])) small
