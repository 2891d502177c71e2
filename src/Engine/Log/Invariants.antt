-- ===== src/Engine/Log/Invariants.antt =====
-- What the steps of the log preserve: one active alert for a rule and a device, and one job for an
-- alert.
use rayavriti_netmonitor.Common.{
  ℕ, ◌+◌, ◌≤◌, ◌≡◌, refl, sym, subst, ap, and_left, and_right, str_eq_iff, count_if-select, Bool,
  true, false, ◌&&◌, Option, none, some, String, List, [], ◌∷◌, ◌++◌, ◌==◌, str_eq, count_if,
  count_if-append, select, arith, ltb, leb, one_if, Bool-cases, inl, inr, ==_iff,
}
use rayavriti_netmonitor.Engine.Types.{Alert, AlertRule}
use rayavriti_netmonitor.Engine.Store.{
  is_active_for, is_of_rule, with_status, is_unique_among, rivals,
}
use rayavriti_netmonitor.Engine.Effects.{NotificationJob}
use rayavriti_netmonitor.Engine.Log.{
  Log, opened, IsNew, LogStep, open_unnoticed, open_noticed, close, LogSteps, here, next,
}

is_of_rule-true : (rule : ℕ) (o : Option ℕ) → is_of_rule rule o ≡ true → o ≡ some rule
is_of_rule-true rule none h = cc
is_of_rule-true rule (some r) h = ap some ((==_iff r rule).0 h)

module _ {F : Type 0} where
  abbrev pub IsUnique : List (Alert F) → Type 0
  IsUnique alerts = (rule device : ℕ) → count_if (is_active_for rule device) alerts ≤ 1

  abbrev pub is_job_of : ℕ → NotificationJob F → Bool
  is_job_of id job = job.alert.id == id

  -- Each alert that was opened has a job at most, and no other has.
  abbrev pub IsOnce : List (NotificationJob F) → Log F → Type 0
  IsOnce taken l =
      (id : ℕ)
      → count_if (is_job_of id) taken + count_if (is_job_of id) l.queue ≤ one_if (ltb id l.next_id)

  count_if-with_status :
      (rule device id : ℕ) (status : String) (alerts : List (Alert F))
      → str_eq status "active" ≡ false
      → count_if (is_active_for rule device) (with_status id status alerts)
        ≤ count_if (is_active_for rule device) alerts
  count_if-with_status rule device id status [] h = omega arith
  count_if-with_status rule device id status (a ∷ alerts) h = elim (Bool-cases (a.id == id)) [
    | inl e ↦ rw e (rw h (omega (arith, count_if-with_status rule device id status alerts h)))
    | inr e ↦ rw e (omega (arith, count_if-with_status rule device id status alerts h))
  ]

  is_active_for-true :
      (rule device : ℕ) (a : Alert F)
      → is_active_for rule device a ≡ true
      → (str_eq a.status "active" ≡ true) × (a.rule_id ≡ some rule) × (a.device_id ≡ device)
  is_active_for-true rule device a h =
      let keys =
        and_right (str_eq a.status "active") (is_of_rule rule a.rule_id && (a.device_id == device))
          h in
      (
        and_left (str_eq a.status "active") (is_of_rule rule a.rule_id && (a.device_id == device))
            h,
        is_of_rule-true rule a.rule_id
            (and_left (is_of_rule rule a.rule_id) (a.device_id == device) keys),
        (==_iff a.device_id device).0
            (and_right (is_of_rule rule a.rule_id) (a.device_id == device) keys),
      )

  -- An active alert's rivals are the active alerts of its rule and device.
  is_active_for-rivals :
      (rule device : ℕ) (a : Alert F) (alerts : List (Alert F))
      → is_active_for rule device a ≡ true
      → rivals a a.rule_id alerts ≡ count_if (is_active_for rule device) alerts
  is_active_for-rivals rule device a alerts h =
      let (active, of_rule, of_device) = is_active_for-true rule device a h in
      subst (λ o. rivals a o alerts ≡ count_if (is_active_for rule device) alerts) (sym of_rule)
        (rw active (rw of_device refl))

  pub opened-IsUnique :
      (l : Log F) (a : Alert F)
      → rivals a a.rule_id l.alerts ≡ 0
      → IsUnique l.alerts
      → IsUnique (l.alerts ++ a ∷ [])
  opened-IsUnique l a free unique r d = elim (Bool-cases (is_active_for r d a)) [
    | inl e ↦ ground (
      arith,
      e,
      free,
      is_active_for-rivals r d a l.alerts e,
      count_if-append (is_active_for r d) l.alerts (a ∷ []),
    )
    | inr e ↦ ground (arith, e, unique r d, count_if-append (is_active_for r d) l.alerts (a ∷ []))
  ]

  IsNew-rivals : (l : Log F) (a : Alert F) → IsNew l a → rivals a a.rule_id l.alerts ≡ 0
  IsNew-rivals l a (rule, of_rule, active, fresh, free) =
      subst (λ o. rivals a o l.alerts ≡ 0) (sym of_rule)
        (rw ((str_eq_iff a.status "active").1 active) free)

  is_unique_among-counts :
      (all alerts : List (Alert F)) (rule device : ℕ)
      → is_unique_among all alerts ≡ true
      → 1 ≤ count_if (is_active_for rule device) alerts
      → count_if (is_active_for rule device) all ≤ 1
  is_unique_among-counts all [] rule device h some_active = omega arith
  is_unique_among-counts all (a ∷ alerts) rule device h some_active =
      elim (Bool-cases (is_active_for rule device a)) [
        | inl e ↦ ground (
          arith,
          and_left (leb (rivals a a.rule_id all) 1) (is_unique_among all alerts) h,
          is_active_for-rivals rule device a all e,
        )
        | inr e ↦
            is_unique_among-counts all alerts rule device
              (and_right (leb (rivals a a.rule_id all) 1) (is_unique_among all alerts) h)
              (omega (arith, rw e at some_active))
      ]

  pub is_unique_among-IsUnique :
      (alerts : List (Alert F)) → is_unique_among alerts alerts ≡ true → IsUnique alerts
  is_unique_among-IsUnique alerts h rule device =
      elim (Bool-cases (leb 1 (count_if (is_active_for rule device) alerts))) [
        | inl e ↦ is_unique_among-counts alerts alerts rule device h (ground (arith, e))
        | inr e ↦ ground (arith, e)
      ]

  LogStep-IsUnique : {l k : Log F} → LogStep l k → IsUnique l.alerts → IsUnique k.alerts
  LogStep-IsUnique (open_unnoticed l a new) unique rule device =
      opened-IsUnique l a (IsNew-rivals l a new) unique rule device
  LogStep-IsUnique (open_noticed l a r new room) unique rule device =
      opened-IsUnique l a (IsNew-rivals l a new) unique rule device
  LogStep-IsUnique (close l id) unique rule device =
      omega
        (arith, unique rule device, count_if-with_status rule device id "resolved" l.alerts refl)

  pub LogSteps-IsUnique : {l k : Log F} → LogSteps l k → IsUnique l.alerts → IsUnique k.alerts
  LogSteps-IsUnique here unique = unique
  LogSteps-IsUnique (next steps step) unique =
      LogStep-IsUnique step (LogSteps-IsUnique steps unique)

  noticed-IsOnce :
      (taken : List (NotificationJob F)) (l : Log F) (a : Alert F) (rule : AlertRule)
      → a.id ≡ l.next_id
      → IsOnce taken l
      → IsOnce taken
          (record (opened a l) { queue = l.queue ++ record { rule = rule; alert = a } ∷ [] })
  noticed-IsOnce taken l a rule fresh once id =
      let job : NotificationJob F = record { rule = rule; alert = a } in
      ground (arith, fresh, once id, count_if-append (is_job_of id) l.queue (job ∷ []))

  LogStep-IsOnce :
      {l k : Log F} (taken : List (NotificationJob F))
      → LogStep l k
      → IsOnce taken l
      → IsOnce taken k
  LogStep-IsOnce taken (open_unnoticed l a new) once id = ground (arith, once id)
  LogStep-IsOnce taken (open_noticed l a rule (r, of_rule, active, fresh, free) room) once id =
      noticed-IsOnce taken l a rule fresh once id
  LogStep-IsOnce taken (close l alert) once id = once id

  pub LogSteps-IsOnce :
      {l k : Log F} (taken : List (NotificationJob F))
      → LogSteps l k
      → IsOnce taken l
      → IsOnce taken k
  LogSteps-IsOnce taken here once = once
  LogSteps-IsOnce taken (next steps step) once =
      LogStep-IsOnce taken step (LogSteps-IsOnce taken steps once)

  -- The alerts are kept, up to those that are taken out.
  pub select-IsUnique :
      (p : Alert F → Bool) (alerts : List (Alert F)) → IsUnique alerts → IsUnique (select p alerts)
  select-IsUnique p alerts unique rule device =
      omega (arith, unique rule device, count_if-select (is_active_for rule device) p alerts)
