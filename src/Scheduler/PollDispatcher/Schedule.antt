-- ===== src/Scheduler/PollDispatcher/Schedule.antt =====
-- The heap of poll_dispatcher.go as a collection: counting in it, and its element 0.
use rayavriti_netmonitor.Common.{
  one_if, ℕ, ◌+◌, ◌<◌, ◌≡◌, refl, Bool, List, [], ◌∷◌, Option, none, some, leb, ◌==◌, ==_iff,
  count_if, arith, Bool-cases, inl, inr,
}
use rayavriti_netmonitor.Common.Assoc.{nat_eq}
use rayavriti_netmonitor.Scheduler.PollDispatcher.Defs.{Entries, remove_id}
use rayavriti_netmonitor.Scheduler.PollDispatcher.Dispatch.{earliest, poll_time, sooner}

abbrev pub occurrences : ℕ → List ℕ → ℕ
occurrences id ids = count_if (λ j. j == id) ids

-- Taking an id out of the heap lowers each count by its share.
pub count_if-remove_id :
    (p : ℕ → Bool) (id : ℕ) (ids : List ℕ)
    → 0 < occurrences id ids
    → count_if p (remove_id id ids) + one_if (p id) ≡ count_if p ids
unfolding remove_id
count_if-remove_id p id [] h = elim h [ ]
count_if-remove_id p id (j ∷ ids) h = elim (Bool-cases (j == id)) [
  | inl same ↦ rw same (rw ((==_iff j id).0 same) (omega arith))
  | inr other ↦
      let below : 0 < occurrences id ids = ground arith in
      rw other (omega (arith, count_if-remove_id p id ids below))
]

-- Whether the entry of an id is due.
abbrev pub is_due : ℕ → Entries → ℕ → Bool
is_due now m id = leb (poll_time m id) now

-- Element 0 is in the heap, and where it is not due nothing in the heap is.
abbrev IsFirst : Entries → ℕ → List ℕ → Option ℕ → Type 0
IsFirst m now ids none = count_if (is_due now m) ids ≡ 0
IsFirst m now ids (some id) =
    (0 < occurrences id ids) × (now < poll_time m id → count_if (is_due now m) ids ≡ 0)

sooner-IsFirst :
    (m : Entries) (now id : ℕ) (ids : List ℕ) (o : Option ℕ)
    → IsFirst m now ids o
    → IsFirst m now (id ∷ ids) (some (sooner m id o))
sooner-IsFirst m now id ids none h = (ground arith, λ later. ground arith)
sooner-IsFirst m now id ids (some j) h = (ground arith, λ later. ground arith)

pub earliest-IsFirst : (m : Entries) (now : ℕ) (ids : List ℕ) → IsFirst m now ids (earliest m ids)
unfolding earliest
earliest-IsFirst m now [] = refl
earliest-IsFirst m now (id ∷ ids) =
    sooner-IsFirst m now id ids (earliest m ids) (earliest-IsFirst m now ids)
