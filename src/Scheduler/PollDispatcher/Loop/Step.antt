-- ===== src/Scheduler/PollDispatcher/Loop/Step.antt =====
-- dispatchDue in poll_dispatcher.go: one turn of the loop.
use rayavriti_netmonitor.Common.{
  one_if, ℕ, ◌+◌, ◌≤◌, ◌<◌, ◌≡◌, true, false, [], ◌∷◌, ◌++◌, Option, none, some, leb, ◌==◌, ==_iff,
  count_if, count_if-append, count_if_mono, arith, if◌then◌else◌, Bool-cases, inl, inr,
}
use rayavriti_netmonitor.Common.Assoc.{
  lookup, insert, lookup-insert, Every, insert-Every, lookup-Every, nat_eq,
}
use rayavriti_netmonitor.Scheduler.PollDispatcher.Defs.{ScheduleEntry, Entries, remove_id}
use rayavriti_netmonitor.Scheduler.PollDispatcher.Dispatch.{
  Round, dispatch_entry, dispatch_one, add_job,
}
use rayavriti_netmonitor.Scheduler.PollDispatcher.Schedule.{occurrences, is_due, count_if-remove_id}
use rayavriti_netmonitor.Scheduler.PollDispatcher.Invariant.{EntryOk, IsSynced, insert-IsSynced}
use rayavriti_netmonitor.Scheduler.PollDispatcher.Loop.Entry.{
  processed, processed-later, processed-EntryOk, processed-jobs, is_ready, jobs_for,
}

pub record RoundOk (r : Round) : Type 0 where
  pub entries_ok : Every EntryOk r.entries
  pub synced : IsSynced r.ids r.entries

-- How many entries of the heap are due.
abbrev pub due_count : ℕ → Round → ℕ
due_count now r = count_if (is_due now r.entries) r.ids

-- What a round makes of an entry: one that is due is processed, any other stays.
abbrev pub settle : ℕ → ScheduleEntry → ScheduleEntry
settle now e = if leb e.next_poll_at now then processed now e else e

abbrev pub settled : ℕ → Option ScheduleEntry → Option ScheduleEntry
settled now none = none
settled now (some e) = some (settle now e)

abbrev pub ready_jobs : ℕ → Option ScheduleEntry → ℕ
ready_jobs now none = 0
ready_jobs now (some e) = one_if (is_ready now e)

-- What is left to do after a turn is what was to do before it, less that turn.
pub record Turn (now : ℕ) (r t : Round) : Type 0 where
  pub turn_ok : RoundOk t
  pub fewer : due_count now t < due_count now r
  pub entries : (j : ℕ) → settled now (lookup j t.entries) ≡ settled now (lookup j r.entries)
  pub jobs :
      (j : ℕ)
      → jobs_for j t.jobs + ready_jobs now (lookup j t.entries)
        ≡ jobs_for j r.jobs + ready_jobs now (lookup j r.entries)

module _ (now id : ℕ) (e : ScheduleEntry) (r : Round) (v : RoundOk r)
    (found : lookup id r.entries ≡ some e) (due : e.next_poll_at ≤ now) where
  entry_ok : EntryOk id e
  entry_ok = lookup-Every EntryOk r.entries id e v.entries_ok found

  later : now < (processed now e).next_poll_at
  later = processed-later now id e entry_ok

  once : occurrences id r.ids ≡ 1
  once = ground (arith, v.synced id, found)

  pushed : Entries
  pushed = insert id (processed now e) r.entries

  pushed_due : (j : ℕ) → one_if (is_due now pushed j) ≤ one_if (is_due now r.entries j)
  unfolding pushed
  pushed_due j =
      ground (arith, lookup-insert id j (processed now e) r.entries, later, ==_iff id j, found)

  pushed_id : is_due now pushed id ≡ false
  unfolding pushed
  pushed_id = ground (arith, lookup-insert id id (processed now e) r.entries, later, ==_iff id id)

  old_id : is_due now r.entries id ≡ true
  old_id = rw found (ground arith)

  still_due :
      count_if (is_due now pushed) (remove_id id r.ids) + 1 ≤ count_if (is_due now r.entries) r.ids
  still_due =
      let moved = count_if-remove_id (is_due now r.entries) id r.ids (omega (arith, once)) in
      let share : one_if (is_due now r.entries id) ≡ 1 = rw old_id in
      omega (
        arith,
        moved,
        share,
        count_if_mono (is_due now pushed) (is_due now r.entries) (remove_id id r.ids) pushed_due,
      )

  fewer_due :
      count_if (is_due now pushed) (remove_id id r.ids ++ id ∷ [])
      < count_if (is_due now r.entries) r.ids
  fewer_due =
      let none_left : one_if (is_due now pushed id) ≡ 0 = rw pushed_id in
      omega (
        arith,
        count_if-append (is_due now pushed) (remove_id id r.ids) (id ∷ []),
        none_left,
        still_due,
      )

  pushed-IsSynced : IsSynced (remove_id id r.ids ++ id ∷ []) pushed
  pushed-IsSynced j =
      let kept = insert-IsSynced r.ids r.entries id e (processed now e) found v.synced j in
      let moved = count_if-remove_id (λ k. k == j) id r.ids (omega (arith, once)) in
      unfold pushed in
      omega (arith, kept, moved, count_if-append (λ k. k == j) (remove_id id r.ids) (id ∷ []))

  settled-pushed : (j : ℕ) → settled now (lookup j pushed) ≡ settled now (lookup j r.entries)
  unfolding pushed
  settled-pushed j = elim (Bool-cases (id == j)) [
    | inl same ↦
        rw (lookup-insert id j (processed now e) r.entries, same, ← (==_iff id j).0 same, found)
          (ground (arith, later))
    | inr other ↦ rw (lookup-insert id j (processed now e) r.entries, other)
  ]

  jobs_pushed :
      (j : ℕ)
      → jobs_for j (add_job r.jobs (dispatch_entry now e.state e.in_flight e).1)
          + ready_jobs now (lookup j pushed)
        ≡ jobs_for j r.jobs + ready_jobs now (lookup j r.entries)
  unfolding pushed
  jobs_pushed j = ground (
    arith,
    lookup-insert id j (processed now e) r.entries,
    ==_iff id j,
    found,
    later,
    processed-jobs now id j e r.jobs entry_ok due,
  )

  pub turn : Turn now r (dispatch_one now id (some e) r)
  unfolding dispatch_one pushed
  turn = record {
    turn_ok = record {
      entries_ok =
          insert-Every EntryOk id _ r.entries v.entries_ok (processed-EntryOk now id e entry_ok);
      synced = pushed-IsSynced;
    };
    fewer = fewer_due;
    entries = settled-pushed;
    jobs = jobs_pushed;
  }
