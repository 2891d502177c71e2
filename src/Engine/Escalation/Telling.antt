-- ===== src/Engine/Escalation/Telling.antt =====
-- escalation.go: the notifications of an alert that were sent or are under way.
use rayavriti_netmonitor.Common.{
  ℕ, zero, suc, ◌+◌, ◌%◌, ◌≤◌, ◌≡◌, refl, ap, sym, ◌∙◌, Bool, true, false, ◌&&◌, Option, none, some,
  List, [], ◌∷◌, ◌==◌, ==_iff, ltb, if◌then◌else◌, count_if, count_if-append, count_if-set, one_if,
  arith, Bool-cases, inl, inr, get_elem?, set,
}
use rayavriti_netmonitor.Common.Assoc.{lookup, insert, erase, nat_eq, lookup-insert, lookup-erase}
use rayavriti_netmonitor.Engine.Escalation.{
  Goroutine, Notification, EscalationEngine, is_looked, notify_step, notify_contacts,
  first_goroutine, begin, start_escalation, with_step,
}

module _ (alert : ℕ) where
  abbrev pub tells : Notification → Bool
  tells n = n.alert_id == alert

  -- A goroutine of the alert that has looked at the map and has not told its contact yet.
  abbrev pub is_telling : Goroutine → Bool
  is_telling g = g.alert_id == alert && is_looked g.phase

  -- The notifications of the alert that were sent, and those that may be under way.
  abbrev pub potential : EscalationEngine → ℕ
  potential e = count_if tells e.sent + count_if is_telling e.goroutines

  -- The alert is not escalated, and no notification comes on the way.
  abbrev pub NoMore : EscalationEngine → EscalationEngine → Type 0
  NoMore e d = (lookup alert d.running ≡ none) × (potential d ≤ potential e)

  pub either_NoMore :
      (b : Bool) (e d c : EscalationEngine)
      → NoMore e d
      → NoMore e c
      → NoMore e (if b then d else c)
  either_NoMore true e d c hd hc = hd
  either_NoMore false e d c hd hc = hc

  pub erase-out :
      (k : ℕ) (running : List (ℕ × ℕ))
      → lookup alert running ≡ none
      → lookup alert (erase k running) ≡ none
  erase-out k running out = lookup-erase k alert running ∙ ground (arith, out)

  pub with_step-out :
      (k turn : ℕ) (o : Option ℕ) (running : List (ℕ × ℕ))
      → lookup k running ≡ o
      → lookup alert running ≡ none
      → lookup alert (with_step k turn o running) ≡ none
  with_step-out k turn none running e out = out
  with_step-out k turn (some before) running e out = elim (Bool-cases (k == alert)) [
    | inl same ↦
        let k_alert = (==_iff k alert).0 same in
        let bad : none ≡ some before = sym out ∙ (ap (λ j. lookup j running) (sym k_alert) ∙ e) in
        cc
    | inr other ↦ lookup-insert k alert turn running ∙ rw other out
  ]

  pub notify_contacts-sent :
      (k turn contacts : ℕ) (e : EscalationEngine)
      → ((notify_contacts k turn contacts e).running ≡ e.running)
        × ((notify_contacts k turn contacts e).goroutines ≡ e.goroutines)
        × (count_if tells (notify_contacts k turn contacts e).sent
            ≤ count_if tells e.sent + one_if (k == alert))
  unfolding notify_contacts notify_step
  notify_contacts-sent k turn zero e = (refl, refl, omega arith)
  notify_contacts-sent k turn (suc n) e =
      let n' : Notification = record { alert_id = k; step = turn; contact = turn % suc n } in
      (refl, refl, ground (arith, count_if-append tells e.sent (n' ∷ [])))

  pub begin-NoMore :
      (other : ℕ)
      → (other == alert) ≡ false
      → (steps contacts : ℕ) (e : EscalationEngine) → lookup alert e.running ≡ none
      → NoMore e (begin other steps contacts e)
  unfolding begin
  begin-NoMore other differs steps contacts e out =
      let with_run : EscalationEngine = record e { running = insert other 0 e.running } in
      let (same, kept, few) = notify_contacts-sent other 0 contacts with_run in
      let after = notify_contacts other 0 contacts with_run in
      let still : lookup alert after.running ≡ none =
        ap (lookup alert) same ∙ (lookup-insert other alert 0 e.running ∙ rw differs out) in
      let fewer : count_if tells after.sent ≤ count_if tells e.sent =
        ground (arith, few, differs) in
      let waiting : count_if is_telling after.goroutines ≡ count_if is_telling e.goroutines =
        ap (count_if is_telling) kept in
      elim (Bool-cases (ltb 1 steps)) [
        | inl h ↦ rw h (
          still,
          ground (
            arith,
            fewer,
            waiting,
            count_if-append is_telling after.goroutines (first_goroutine other steps ∷ []),
          ),
        )
        | inr h ↦ rw h (still, omega (arith, fewer, waiting))
      ]

  pub start_escalation-NoMore :
      (other : ℕ)
      → (other == alert) ≡ false
      → (steps : ℕ) (contacts : Option ℕ) (e : EscalationEngine) → lookup alert e.running ≡ none
      → NoMore e (start_escalation other steps contacts e)
  unfolding start_escalation
  start_escalation-NoMore other differs zero contacts e out = (out, omega arith)
  start_escalation-NoMore other differs (suc n) none e out = (out, omega arith)
  start_escalation-NoMore other differs (suc n) (some contacts) e out =
      either_NoMore e.enabled e _ e (begin-NoMore other differs (suc n) contacts e out)
        (out, omega arith)

  -- A goroutine takes the place of another and is not about to tell.
  pub set_fewer :
      (gs : List Goroutine) (i : ℕ) (g x : Goroutine)
      → get_elem? gs i ≡ some g
      → is_telling x ≡ false
      → count_if is_telling (set gs i x) + one_if (is_telling g) ≤ count_if is_telling gs
  set_fewer gs i g x here h = ground (arith, h, count_if-set is_telling gs i g x here)
