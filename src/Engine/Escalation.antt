-- ===== src/Engine/Escalation.antt =====
-- engine/escalation.go: the steps of an escalation, each after a delay in a goroutine. The contacts that
-- are resolved and the answers of the database are parameters. A goroutine looks at the map, tells a
-- contact and notes the step in the map in three events, between which others may come; a send that
-- fails counts as a notification.
pub mod Telling
pub mod Cancelled
mod Examples
use rayavriti_netmonitor.Common.{
  ℕ, zero, suc, ◌+◌, ◌%◌, Bool, true, false, not, ◌&&◌, Option, none, some, List, [], ◌∷◌, ◌++◌,
  ltb, if◌then◌else◌, get_elem?, set, length,
}
use rayavriti_netmonitor.Common.Assoc.{lookup, insert, erase, nat_eq}

-- Where a goroutine is in a turn of the loop of runSteps: it waits for the delay, it has found its
-- escalation in the map, or it has told the step's contact.
pub data Phase : Type 0 where
  sleeping looked told : Phase

abbrev pub is_sleeping : Phase → Bool
is_sleeping sleeping = true
is_sleeping _ = false

abbrev pub is_looked : Phase → Bool
is_looked looked = true
is_looked _ = false

abbrev pub is_told : Phase → Bool
is_told told = true
is_told _ = false

-- `next_step` is the step of the turn, and the goroutine has ended at `steps`.
pub record Goroutine : Type 0 where
  pub alert_id : ℕ
  pub next_step : ℕ
  pub steps : ℕ
  pub phase : Phase

pub record Notification : Type 0 where
  pub alert_id : ℕ
  pub step : ℕ
  pub contact : ℕ

-- `running` is the step of each escalation; an escalation that is cancelled is no longer in the map, so
-- its flag is never seen.
pub record EscalationEngine : Type 0 where
  pub enabled : Bool
  pub running : List (ℕ × ℕ)
  pub goroutines : List Goroutine
  pub sent : List Notification

-- What a goroutine meets: whether the update fails, and how many contacts are resolved, if that does
-- not fail.
pub record Answers : Type 0 where
  pub update_fails : Bool
  pub contacts : Option ℕ

-- `true` at `woken` is that 24 hours are over.
pub data Event : Type 0 where
  started : ℕ → ℕ → Option ℕ → Event
  cancelled : ℕ → Event
  woken : ℕ → Bool → Event
  notified : ℕ → Answers → Event
  noted : ℕ → Event

abbrev pub new_escalation_engine : Bool → EscalationEngine
new_escalation_engine enabled = record {
  enabled = enabled;
  running = [];
  goroutines = [];
  sent = [];
}

unfoldable pub notify_step : ℕ → ℕ → ℕ → EscalationEngine → EscalationEngine
notify_step alert step contact e = record e {
  sent = e.sent ++ record { alert_id = alert; step = step; contact = contact } ∷ [];
}

-- The first contact is told at once, the others by their step.
unfoldable pub notify_contacts : ℕ → ℕ → ℕ → EscalationEngine → EscalationEngine
unfolding notify_step
notify_contacts alert step zero e = e
notify_contacts alert step (suc n) e = notify_step alert step (step % suc n) e

abbrev pub first_goroutine : ℕ → ℕ → Goroutine
first_goroutine alert steps = record {
  alert_id = alert;
  next_step = 1;
  steps = steps;
  phase = sleeping;
}

-- With the number of steps of the policy.
unfoldable pub begin : ℕ → ℕ → ℕ → EscalationEngine → EscalationEngine
unfolding notify_contacts
begin alert steps contacts e =
    let after =
      notify_contacts alert 0 contacts (record e { running = insert alert 0 e.running }) in
    if ltb 1 steps
    then record after { goroutines = after.goroutines ++ first_goroutine alert steps ∷ [] }
    else after

unfoldable pub start_escalation : ℕ → ℕ → Option ℕ → EscalationEngine → EscalationEngine
unfolding begin
start_escalation alert zero contacts e = e
start_escalation alert (suc n) none e = e
start_escalation alert (suc n) (some contacts) e =
    if e.enabled then begin alert (suc n) contacts e else e

unfoldable pub cancel_escalation : ℕ → EscalationEngine → EscalationEngine
cancel_escalation alert e = record e { running = erase alert e.running }

-- The goroutine ends and takes its alert out of the map.
unfoldable pub finish : ℕ → Goroutine → EscalationEngine → EscalationEngine
finish i g e = record e {
  running = erase g.alert_id e.running;
  goroutines = set e.goroutines i (record g { next_step = g.steps; phase = sleeping });
}

-- The next turn of the loop, or its end.
unfoldable pub advance : ℕ → Goroutine → EscalationEngine → EscalationEngine
unfolding finish
advance i g e =
    if ltb (g.next_step + 1) g.steps
    then record e {
      goroutines = set e.goroutines i (record g { next_step = g.next_step + 1; phase = sleeping });
    }
    else finish i g e

-- The wake after the delay: the look at the map.
unfoldable pub look : Bool → ℕ → Goroutine → Option ℕ → EscalationEngine → EscalationEngine
unfolding finish
look expired i g none e = finish i g e
look expired i g (some step) e =
    if expired
    then finish i g e
    else record e { goroutines = set e.goroutines i (record g { phase = looked }) }

-- The update of the alert, the contacts and the notification.
unfoldable pub tell_contacts : ℕ → Goroutine → Option ℕ → EscalationEngine → EscalationEngine
unfolding notify_contacts advance
tell_contacts i g none e = advance i g e
tell_contacts i g (some contacts) e =
    let after = notify_contacts g.alert_id g.next_step contacts e in
    record after { goroutines = set after.goroutines i (record g { phase = told }) }

unfoldable pub tell : Answers → ℕ → Goroutine → EscalationEngine → EscalationEngine
unfolding finish tell_contacts
tell w i g e = if w.update_fails then finish i g e else tell_contacts i g w.contacts e

abbrev pub with_step : ℕ → ℕ → Option ℕ → List (ℕ × ℕ) → List (ℕ × ℕ)
with_step alert step none running = running
with_step alert step (some before) running = insert alert step running

-- The step in the map, if the escalation is still there.
unfoldable pub note : ℕ → Goroutine → EscalationEngine → EscalationEngine
unfolding advance
note i g e = advance i g (record e {
  running = with_step g.alert_id g.next_step (lookup g.alert_id e.running) e.running;
})

unfoldable pub wake_at : Bool → ℕ → Option Goroutine → EscalationEngine → EscalationEngine
unfolding look
wake_at expired i none e = e
wake_at expired i (some g) e =
    if is_sleeping g.phase && ltb g.next_step g.steps
    then look expired i g (lookup g.alert_id e.running) e
    else e

unfoldable pub tell_at : Answers → ℕ → Option Goroutine → EscalationEngine → EscalationEngine
unfolding tell
tell_at w i none e = e
tell_at w i (some g) e = if is_looked g.phase then tell w i g e else e

unfoldable pub note_at : ℕ → Option Goroutine → EscalationEngine → EscalationEngine
unfolding note
note_at i none e = e
note_at i (some g) e = if is_told g.phase then note i g e else e

unfoldable pub step : Event → EscalationEngine → EscalationEngine
unfolding start_escalation cancel_escalation wake_at tell_at note_at
step (started alert steps contacts) e = start_escalation alert steps contacts e
step (cancelled alert) e = cancel_escalation alert e
step (woken i expired) e = wake_at expired i (get_elem? e.goroutines i) e
step (notified i w) e = tell_at w i (get_elem? e.goroutines i) e
step (noted i) e = note_at i (get_elem? e.goroutines i) e

unfoldable pub run : List Event → EscalationEngine → EscalationEngine
unfolding step
run [] e = e
run (event ∷ events) e = run events (step event e)

-- GetActiveStep, where `none` is -1.
unfoldable pub get_active_step : ℕ → EscalationEngine → Option ℕ
get_active_step alert e = lookup alert e.running

unfoldable pub run_count : EscalationEngine → ℕ
run_count e = length e.running
