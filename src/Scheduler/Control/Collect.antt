-- ===== src/Scheduler/Control/Collect.antt =====
-- scheduler.go, collectAndReturnResult: one poll. Redis, the registry, the collector and the clock
-- are parameters: what the lock and the collector answer, and the readings of the clock.
use rayavriti_netmonitor.Common.{
  ℕ, ◌-◌, ◌/◌, ◌≤◌, Bool, true, false, not, ◌||◌, Option, none, some, String, ◌≡◌, refl,
  if◌then◌else◌, arith,
}
use rayavriti_netmonitor.Common.Int.{ℤ, pos, negsuc, ltb_pos, to_nat}
use rayavriti_netmonitor.Scheduler.Types.{Device, PollJob, CollectResult, PollResult}
use rayavriti_netmonitor.Scheduler.Control.{device_interval, is_operational}

-- What the distributed lock answers, if there is a Redis.
pub data Lock : Type 0 where
  no_redis failed held acquired : Lock

-- What a collector answers: the poll was cancelled meanwhile, an error, no result, or a result.
pub data Answer (F : Type 0) : Type 0 where
  cancelled : String → Answer F
  error : String → Answer F
  nothing : Answer F
  measured : CollectResult F → Answer F

-- How the world answers one poll. `of_ms` is a number of milliseconds as a float64, `zero_ms` the
-- float64 zero; a collector may write to the device; `unknown_protocol` is the text of an error; `with_duration` puts the duration in the details.
pub record World (F : Type 0) : Type 0 where
  pub lock : ℕ → Lock
  pub registered : String → Bool
  pub collect : Device → Device × Answer F
  pub started : ℕ
  pub returned : ℕ
  pub finished : ℕ
  pub zero_ms : F
  pub of_ms : ℕ → F
  pub unknown_protocol : String → String
  pub with_duration : Option F → ℕ → Option F

abbrev clamp_above : ℤ → ℤ
clamp_above t = if ltb_pos t 600000000001 then t else pos 600000000000

-- The lock's lifetime: the interval, but from 30 seconds to 10 minutes.
unfoldable pub lock_ttl : Device → ℤ
lock_ttl d =
    let ttl =
      if ltb_pos (device_interval d) 30000000000 then pos 30000000000 else device_interval d in
    clamp_above ttl

abbrev pub or_skip {ℓ} : {A : Type ℓ} → Lock → A → A → A
or_skip held skip go = skip
or_skip _ skip go = go

abbrev pub is_held : Lock → Bool
is_held held = true
is_held _ = false

module _ {F : Type 0} where
  -- A result with the device, the times and the outcome.
  abbrev pub outcome :
      World F → Device → Option (CollectResult F) → String → F → Option String → PollResult F
  outcome w d c status ms err = record {
    device = d;
    collect_result = c;
    status = status;
    response_ms = ms;
    error = err;
    started_at = w.started;
    finished_at = some w.finished;
  }

  abbrev pub duration_ms : World F → ℕ
  duration_ms w = (w.returned - w.started) / 1000000

  abbrev pub response_or : F → Option F → F
  response_or f none = f
  response_or f (some r) = r

  unfoldable pub answered : World F → Device → Answer F → PollResult F
  answered w d (cancelled e) = outcome w d none "" w.zero_ms (some e)
  answered w d (error e) = outcome w d none "down" (w.of_ms (duration_ms w)) (some e)
  answered w d nothing = outcome w d none "down" (w.of_ms (duration_ms w)) none
  answered w d (measured c) =
      outcome w d (some (record c { details = w.with_duration c.details (duration_ms w) })) c.status
        (response_or (w.of_ms (duration_ms w)) c.response_time) none

  unfoldable pub collect_and_return_result : World F → PollJob → PollResult F
  unfolding answered
  collect_and_return_result w job =
      or_skip (w.lock (to_nat (lock_ttl job.device)))
        (outcome w job.device none "" w.zero_ms (some "skipped: could not acquire lock"))
        (if w.registered job.device.protocol
          then answered w (w.collect job.device).0 (w.collect job.device).1
          else outcome w job.device none "" w.zero_ms
              (some (w.unknown_protocol job.device.protocol)))

  -- The reasons for which a poll says nothing about the device.
  abbrev pub was_cancelled : Answer F → Bool
  was_cancelled (cancelled e) = true
  was_cancelled _ = false

  answered-is_operational :
      (w : World F) (d : Device) (a : Answer F) → is_operational (answered w d a) ≡ was_cancelled a
  unfolding answered
  answered-is_operational w d (cancelled e) = refl
  answered-is_operational w d (error e) = refl
  answered-is_operational w d nothing = refl
  answered-is_operational w d (measured c) = refl

  -- A poll's result is an operational error, which the scheduler ignores, exactly if another
  -- instance holds the lock, or the protocol has no collector, or the poll was cancelled.
  pub collect_and_return_result-is_operational :
      (w : World F) (job : PollJob)
      → is_operational (collect_and_return_result w job) ≡ (
          is_held (w.lock (to_nat (lock_ttl job.device)))
          || (not (w.registered job.device.protocol) || was_cancelled (w.collect job.device).1))
  unfolding collect_and_return_result
  collect_and_return_result-is_operational w job =
      cases (w.lock (to_nat (lock_ttl job.device))) (w.registered job.device.protocol)
    where
      cases :
          (l : Lock) (r : Bool)
          → is_operational (
              or_skip l
                (outcome w job.device none "" w.zero_ms (some "skipped: could not acquire lock"))
                (if r
                  then answered w (w.collect job.device).0 (w.collect job.device).1
                  else outcome w job.device none "" w.zero_ms
                      (some (w.unknown_protocol job.device.protocol))))
            ≡ (is_held l || (not r || was_cancelled (w.collect job.device).1))
      cases held r = refl
      cases no_redis true =
          answered-is_operational w (w.collect job.device).0 (w.collect job.device).1
      cases failed true =
          answered-is_operational w (w.collect job.device).0 (w.collect job.device).1
      cases acquired true =
          answered-is_operational w (w.collect job.device).0 (w.collect job.device).1
      cases no_redis false = refl
      cases failed false = refl
      cases acquired false = refl

-- Whatever the interval, also one that overflows, a lock lives from 30 seconds to 10 minutes.
pub lock_ttl_bounds :
    (d : Device) → (30000000000 ≤ to_nat (lock_ttl d)) × (to_nat (lock_ttl d) ≤ 600000000000)
unfolding lock_ttl
lock_ttl_bounds d = bounds (device_interval d)
  where
    bounds :
        (i : ℤ)
        → (30000000000
            ≤ to_nat (clamp_above (if ltb_pos i 30000000000 then pos 30000000000 else i)))
          × (to_nat (clamp_above (if ltb_pos i 30000000000 then pos 30000000000 else i))
              ≤ 600000000000)
    bounds (pos n) = ground arith
    bounds (negsuc n) = (omega arith, omega arith)
