-- ===== src/Engine/Escalation/Examples.antt =====
-- Escalations at concrete inputs.
use rayavriti_netmonitor.Common.{◌≡◌, refl, true, false, some, List, [], ◌∷◌, count_if, ◌==◌}
use rayavriti_netmonitor.Engine.Escalation.{
  EscalationEngine, Answers, Event, started, woken, notified, noted, cancelled,
  new_escalation_engine, step, run, start_escalation, begin, notify_contacts, notify_step,
  cancel_escalation, look, tell, tell_contacts, note, advance, wake_at, tell_at, note_at,
}
use rayavriti_netmonitor.Engine.Escalation.Telling.{tells}

abbrev on_time : Answers
on_time = record { update_fails = false; contacts = some 2 }

abbrev running_two : EscalationEngine
running_two = run (started 4 3 (some 2) ∷ started 5 3 (some 2) ∷ []) (new_escalation_engine true)

abbrev later : List Event
later =
    woken 0 false
    ∷ notified 0 on_time
    ∷ woken 1 false
    ∷ notified 1 on_time
    ∷ noted 1
    ∷ started 6 2 (some 1)
    ∷ []

-- A goroutine that has looked at the map still tells its contact after the cancellation.
abbrev overtaken : List Event
overtaken = started 4 3 (some 2) ∷ woken 0 false ∷ cancelled 4 ∷ notified 0 on_time ∷ []

told_after_cancellation : count_if (tells 4) (run overtaken (new_escalation_engine true)).sent ≡ 2
unfolding run step start_escalation begin notify_contacts notify_step cancel_escalation wake_at look
    tell_at tell tell_contacts
told_after_cancellation = refl

-- The goroutine of a cancelled escalation goes on where another is started before it wakes.
abbrev restarted : List Event
restarted =
    started 4 3 (some 1)
    ∷ cancelled 4
    ∷ started 4 3 (some 1)
    ∷ woken 0 false
    ∷ notified 0 on_time
    ∷ noted 0
    ∷ woken 1 false
    ∷ notified 1 on_time
    ∷ []

step_one_twice : count_if (λ n. n.step == 1) (run restarted (new_escalation_engine true)).sent ≡ 2
unfolding run step start_escalation begin notify_contacts notify_step cancel_escalation wake_at look
    tell_at tell tell_contacts note_at note advance
step_one_twice = refl
