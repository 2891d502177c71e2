-- ===== src/Scheduler/PollDispatcher/Loop/Hang.antt =====
-- dispatchDue in poll_dispatcher.go, where eight times the interval does not fit in an int64.
use rayavriti_netmonitor.Common.{
  ℕ, zero, suc, ◌≤◌, ◌<◌, ◌≡◌, ◌≢◌, refl, Bool, true, false, List, [], ◌∷◌, ◌++◌, Option, none,
  some, ltb, ◌==◌, ==_iff, count_if, count_if-append, arith, Bool-cases, Option-cases, inl, inr,
  subst, ltb→lt, ◌∙◌,
}
use rayavriti_netmonitor.Common.Int.{negsuc}
use rayavriti_netmonitor.Common.Assoc.{lookup, lookup-insert, nat_eq}
use rayavriti_netmonitor.Scheduler.Types.{DeviceState, healthy, unreachable, paused}
use rayavriti_netmonitor.Scheduler.PollDispatcher.Defs.{
  ScheduleEntry, effective_interval, remove_id,
}
use rayavriti_netmonitor.Scheduler.PollDispatcher.Dispatch.{
  Round, poll_time, earliest, dispatch_loop, dispatch_one, dispatch_entry,
}
use rayavriti_netmonitor.Scheduler.PollDispatcher.Schedule.{
  occurrences, is_due, earliest-IsFirst, count_if-remove_id,
}
use rayavriti_netmonitor.Scheduler.PollDispatcher.Loop.Entry.{processed}
use rayavriti_netmonitor.Scheduler.PollDispatcher.Loop.Total.{count_if-zero}

-- A due entry in flight whose backoff has wrapped to a negative duration.
pub record IsStuck (now : ℕ) (e : ScheduleEntry) : Type 0 where
  pub due : e.next_poll_at ≤ now
  pub flying : e.in_flight ≡ true
  pub active : e.state ≢ paused
  pub back : ℕ
  pub wrapped : effective_interval e ≡ negsuc back

-- It is in the heap.
record Holds (now id : ℕ) (r : Round) : Type 0 where
  entry : ScheduleEntry
  found : lookup id r.entries ≡ some entry
  stuck : IsStuck now entry
  held : 0 < occurrences id r.ids

processed-wrapped :
    (now : ℕ) (s : DeviceState) (b : Bool) (e : ScheduleEntry)
    → s ≢ paused
    → b ≡ true
    → IsStuck now e
    → IsStuck now (dispatch_entry now s b e).0
unfolding dispatch_entry effective_interval
processed-wrapped now paused b e h f v = absurd (h refl)
processed-wrapped now s false e h f v = cc
processed-wrapped now healthy true e h f v = record {
  due = rw v.wrapped (omega arith);
  flying = v.flying;
  active = v.active;
  back = v.back;
  wrapped = v.wrapped;
}
processed-wrapped now unreachable true e h f v = record {
  due = rw v.wrapped (omega arith);
  flying = v.flying;
  active = v.active;
  back = v.back;
  wrapped = v.wrapped;
}

occurrences-kept :
    (id j : ℕ) (ids : List ℕ)
    → 0 < occurrences j ids
    → 0 < occurrences id ids
    → 0 < occurrences id (remove_id j ids ++ j ∷ [])
occurrences-kept id j ids hj h = omega (
  arith,
  count_if-append (λ k. k == id) (remove_id j ids) (j ∷ []),
  count_if-remove_id (λ k. k == id) j ids hj,
)

turn-Holds :
    (now id j : ℕ) (o : Option ScheduleEntry) (r : Round)
    → lookup j r.entries ≡ o
    → 0 < occurrences j r.ids
    → Holds now id r
    → Holds now id (dispatch_one now j o r)
unfolding dispatch_one
turn-Holds now id j none r e hj h = record {
  entry = h.entry;
  found = h.found;
  stuck = h.stuck;
  held = ground (arith, h.held, count_if-remove_id (λ k. k == id) j r.ids, ==_iff j id, e, h.found);
}
turn-Holds now id j (some f) r e hj h = elim (Bool-cases (j == id)) [
  | inl same ↦
      let one : h.entry ≡ f = ground (arith, e, h.found, ==_iff j id, same) in
      let stuck : IsStuck now f = subst (IsStuck now) one h.stuck in
      record {
        entry = processed now f;
        found = rw (lookup-insert j id (processed now f) r.entries, same) refl;
        stuck = processed-wrapped now f.state f.in_flight f stuck.active stuck.flying stuck;
        held = occurrences-kept id j r.ids hj h.held;
      }
  | inr other ↦ record {
    entry = h.entry;
    found = rw (lookup-insert j id (processed now f) r.entries, other) h.found;
    stuck = h.stuck;
    held = occurrences-kept id j r.ids hj h.held;
  }
]

head_due : (now id : ℕ) (r : Round) → Holds now id r → count_if (is_due now r.entries) r.ids ≢ 0
head_due now id r h zero_due =
    let rested = count_if-zero (is_due now r.entries) id r.ids zero_due h.held in
    ground (arith, rested, h.found, h.stuck.due)

loop_turn :
    (fuel now j : ℕ) (r : Round)
    → earliest r.entries r.ids ≡ some j
    → ltb now (poll_time r.entries j) ≡ false
    → dispatch_loop (suc fuel) now r
      ≡ dispatch_loop fuel now (dispatch_one now j (lookup j r.entries) r)
unfolding dispatch_loop
loop_turn fuel now j r e h = rw (e, dispatch_loop) (rw h)

Holds-hang : (fuel now id : ℕ) (r : Round) → Holds now id r → dispatch_loop fuel now r ≡ none
Holds-hang zero now id r h = unfold dispatch_loop in refl
Holds-hang (suc fuel) now id r h = elim (Option-cases (earliest r.entries r.ids)) [
  | inl e ↦ absurd (head_due now id r h (rw e at (earliest-IsFirst r.entries now r.ids)))
  | inr (j, e) ↦
      let first = rw e at (earliest-IsFirst r.entries now r.ids) in
      elim (Bool-cases (ltb now (poll_time r.entries j))) [
        | inl after ↦ absurd (head_due now id r h (first.1 (ltb→lt _ _ after)))
        | inr go ↦
            loop_turn fuel now j r e go
            ∙ Holds-hang fuel now id (dispatch_one now j (lookup j r.entries) r)
                (turn-Holds now id j (lookup j r.entries) r refl first.0 h)
      ]
]

-- If the heap holds a due entry that is in flight, is not paused, and whose backoff has wrapped to
-- a negative duration, then the loop of dispatchDue does not end with any amount of fuel.
pub wrapped_backoff_hangs :
    (fuel now id : ℕ) (r : Round) (e : ScheduleEntry)
    → lookup id r.entries ≡ some e
    → 0 < occurrences id r.ids
    → IsStuck now e
    → dispatch_loop fuel now r ≡ none
wrapped_backoff_hangs fuel now id r e found held stuck =
    Holds-hang fuel now id r (record { entry = e; found = found; stuck = stuck; held = held })
