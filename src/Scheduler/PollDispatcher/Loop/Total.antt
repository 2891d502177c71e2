-- ===== src/Scheduler/PollDispatcher/Loop/Total.antt =====
-- dispatchDue in poll_dispatcher.go: the whole loop, and what follows it.
use rayavriti_netmonitor.Common.{
  ℕ, zero, suc, ◌+◌, ◌≤◌, ◌<◌, ◌≡◌, refl, Bool, true, false, List, [], ◌∷◌, Option, none, some, leb,
  ltb, ◌==◌, ==_iff, count_if, arith, Bool-cases, Option-cases, ltb→lt, inl, inr, ◌∙◌,
}
use rayavriti_netmonitor.Common.Assoc.{lookup, nat_eq}
use rayavriti_netmonitor.Scheduler.PollDispatcher.Defs.{ScheduleEntry, Entries}
use rayavriti_netmonitor.Scheduler.PollDispatcher.Dispatch.{
  Round, poll_time, dispatch_one, earliest, dispatch_loop,
}
use rayavriti_netmonitor.Scheduler.PollDispatcher.Schedule.{occurrences, is_due, earliest-IsFirst}
use rayavriti_netmonitor.Scheduler.PollDispatcher.Invariant.{IsSynced}
use rayavriti_netmonitor.Scheduler.PollDispatcher.Loop.Entry.{jobs_for}
use rayavriti_netmonitor.Scheduler.PollDispatcher.Loop.Step.{
  RoundOk, due_count, settled, ready_jobs, Turn, turn,
}

pub count_if-zero :
    (p : ℕ → Bool) (j : ℕ) (ids : List ℕ) → count_if p ids ≡ 0 → 0 < occurrences j ids → p j ≡ false
count_if-zero p j [] h k = elim k [ ]
count_if-zero p j (i ∷ ids) h k = elim (Bool-cases (i == j)) [
  | inl same ↦ rw (← (==_iff i j).0 same) (ground arith)
  | inr other ↦ count_if-zero p j ids (omega arith) (ground arith)
]

-- The state after the loop: every entry is settled, and the jobs are those of the ready entries.
pub record Finished (now : ℕ) (r t : Round) : Type 0 where
  pub round_ok : RoundOk t
  pub entries : (j : ℕ) → lookup j t.entries ≡ settled now (lookup j r.entries)
  pub jobs : (j : ℕ) → jobs_for j t.jobs ≡ jobs_for j r.jobs + ready_jobs now (lookup j r.entries)

idle_entry :
    (now j : ℕ) (r : Round) (o : Option ScheduleEntry)
    → lookup j r.entries ≡ o
    → RoundOk r
    → due_count now r ≡ 0
    → (o ≡ settled now o) × (ready_jobs now o ≡ 0)
idle_entry now j r none e v h = (refl, refl)
idle_entry now j r (some f) e v h =
    let here : 0 < occurrences j r.ids = ground (arith, v.synced j, e) in
    let rested = count_if-zero (is_due now r.entries) j r.ids h here in
    let after : leb f.next_poll_at now ≡ false = ground (arith, rested, e) in (rw after, rw after)

idle-Finished : (now : ℕ) (r : Round) → RoundOk r → due_count now r ≡ 0 → Finished now r r
idle-Finished now r v h = record {
  round_ok = v;
  entries = λ j. (idle_entry now j r (lookup j r.entries) refl v h).0;
  jobs = λ j. omega (arith, (idle_entry now j r (lookup j r.entries) refl v h).1);
}

Turn-Finished : (now : ℕ) (r t u : Round) → Turn now r t → Finished now t u → Finished now r u
Turn-Finished now r t u a b = record {
  round_ok = b.round_ok;
  entries = λ j. b.entries j ∙ a.entries j;
  jobs = λ j. omega (arith, a.jobs j, b.jobs j);
}

-- The entry that heap element 0 points to.
found_entry :
    (m : Entries) (ids : List ℕ) (id : ℕ) (o : Option ScheduleEntry)
    → IsSynced ids m
    → 0 < occurrences id ids
    → lookup id m ≡ o
    → (e : ScheduleEntry) × (lookup id m ≡ some e)
found_entry m ids id none s h e = absurd (ground (arith, s id, e))
found_entry m ids id (some f) s h e = (f, e)

loop_empty :
    (fuel now : ℕ) (r : Round)
    → earliest r.entries r.ids ≡ none
    → dispatch_loop (suc fuel) now r ≡ some r
unfolding dispatch_loop
loop_empty fuel now r e = rw (e, dispatch_loop)

loop_rest :
    (fuel now id : ℕ) (r : Round)
    → earliest r.entries r.ids ≡ some id
    → ltb now (poll_time r.entries id) ≡ true
    → dispatch_loop (suc fuel) now r ≡ some r
unfolding dispatch_loop
loop_rest fuel now id r e h = rw (e, dispatch_loop) (rw h)

loop_turn :
    (fuel now id : ℕ) (f : ScheduleEntry) (r : Round)
    → earliest r.entries r.ids ≡ some id
    → ltb now (poll_time r.entries id) ≡ false
    → lookup id r.entries ≡ some f
    → dispatch_loop (suc fuel) now r ≡ dispatch_loop fuel now (dispatch_one now id (some f) r)
unfolding dispatch_loop
loop_turn fuel now id f r e h found = rw (e, dispatch_loop) (rw (h, found))

-- With more fuel than entries are due the loop ends.
pub dispatch_loop-Finished :
    (fuel now : ℕ) (r : Round)
    → RoundOk r
    → due_count now r < fuel
    → (t : Round) × (dispatch_loop fuel now r ≡ some t) × Finished now r t
dispatch_loop-Finished zero now r v h = elim h [ ]
dispatch_loop-Finished (suc fuel) now r v h = elim (Option-cases (earliest r.entries r.ids)) [
  | inl e ↦
      let first = earliest-IsFirst r.entries now r.ids in
      (r, loop_empty fuel now r e, idle-Finished now r v (rw e at first))
  | inr (id, e) ↦
      let first = rw e at (earliest-IsFirst r.entries now r.ids) in
      elim (Bool-cases (ltb now (poll_time r.entries id))) [
        | inl rest ↦
            (r, loop_rest fuel now id r e rest, idle-Finished now r v (first.1 (ltb→lt _ _ rest)))
        | inr go ↦
            let (f, found) =
              found_entry r.entries r.ids id (lookup id r.entries) v.synced first.0 refl in
            let due : f.next_poll_at ≤ now = ground (arith, go, found) in
            let t = turn now id f r v found due in
            let (u, ends, finished) =
              dispatch_loop-Finished fuel now (dispatch_one now id (some f) r) t.turn_ok
                (omega (arith, t.fewer)) in
            (u, loop_turn fuel now id f r e go found ∙ ends, Turn-Finished now r _ u t finished)
      ]
]
