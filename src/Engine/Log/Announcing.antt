-- ===== src/Engine/Log/Announcing.antt =====
-- engine/alert.go, fireAlert from CreateAlert on: in the log, an alert is opened, with or without a
-- job, or nothing happens.
use rayavriti_netmonitor.Common.{
  ℕ, ◌+◌, ◌<◌, ◌≡◌, refl, sym, subst, not, Option, none, some, String, [], ◌∷◌, ◌++◌, length, arith,
  ltb, leb, Bool-cases, inl, inr, ◌⊎◌, ltb→lt, ◌∙◌, ◌||◌,
}
use rayavriti_netmonitor.Engine.Types.{
  AlertRule, MonitoredDevice, Alert, AlertRuleState, AlertMessage,
}
use rayavriti_netmonitor.Engine.Suppression.{SuppressedAlert}
use rayavriti_netmonitor.Engine.Store.{rivals, create_alert, upsert_alert_rule_state}
use rayavriti_netmonitor.Engine.Effects.{
  Faults, Wiring, Broadcast, alert_triggered, Engine, upsert_state, record_history, broadcast,
  send_notifications, record_suppressed_alert, Created, row, duplicate, failed, create, new_alert,
  find_active_alert_for_rule, actor, notif_queue_size, has_none,
}
use rayavriti_netmonitor.Engine.Firing.{
  Evaluation, point_at, point_at_found, announce, after_create,
}
use rayavriti_netmonitor.Engine.Log.{
  Log, log_of, IsNew, opened, open_unnoticed, open_noticed, LogSteps, here, next, append-LogSteps,
}

module _ {F : Type 0} where
  -- Nothing happened to the log.
  pub quiet : {l k : Log F} → k ≡ l → LogSteps l k
  quiet {l} same = subst (LogSteps l) (sym same) here

  pub log_of-upsert_state :
      (f : Faults) (rule : AlertRule) (device : MonitoredDevice) (st : AlertRuleState F)
      (e : Engine F)
      → log_of (upsert_state f rule device st e) ≡ log_of e
  unfolding upsert_state upsert_alert_rule_state
  log_of-upsert_state f rule device st e = elim (Bool-cases f.upsert) [
    | inl h ↦ rw h refl
    | inr h ↦ rw h refl
  ]

  pub log_of-record_suppressed_alert :
      (w : Wiring) (f : Faults) (a : SuppressedAlert) (e : Engine F)
      → log_of (record_suppressed_alert w f a e) ≡ log_of e
  unfolding record_suppressed_alert
  log_of-record_suppressed_alert w f a e = elim (Bool-cases w.has_recorder) [
    | inl h ↦ elim (Bool-cases f.record_suppressed) [
      | inl g ↦ rw h (rw g refl)
      | inr g ↦ rw h (rw g refl)
    ]
    | inr h ↦ rw h refl
  ]

  pub log_of-record_history :
      (f : Faults) (alert rule : ℕ) (action by : String) (e : Engine F)
      → log_of (record_history f alert rule action by e) ≡ log_of e
  unfolding record_history
  log_of-record_history f alert rule action by e = elim (Bool-cases f.record_history) [
    | inl h ↦ rw h refl
    | inr h ↦ rw h refl
  ]

  pub log_of-broadcast :
      (w : Wiring) (b : Broadcast F) (e : Engine F) → log_of (broadcast w b e) ≡ log_of e
  unfolding broadcast
  log_of-broadcast w b e = elim (Bool-cases w.has_hub) [ inl h ↦ rw h refl | inr h ↦ rw h refl ]

  -- The engine after a row was inserted.
  abbrev pub with_row : Alert F → Engine F → Engine F
  with_row a e = record e {
    store = record e.store {
      alerts = e.store.alerts ++ record a { id = e.store.next_id } ∷ [];
      next_id = e.store.next_id + 1;
    };
  }

  -- What create does: nothing, or a row is inserted as there was no rival.
  abbrev pub IsMade : Alert F → Engine F → Created F × Engine F → Type 0
  IsMade a e made =
      (made ≡ (failed, e))
      ⊎ ((made ≡ (duplicate, e))
          ⊎ ((rivals a a.rule_id e.store.alerts ≡ 0)
              × ((made ≡ (failed, with_row a e))
                  ⊎ (made ≡ (row (record a { id = e.store.next_id }), with_row a e)))))

  pub create-IsMade : (f : Faults) (a : Alert F) (e : Engine F) → IsMade a e (create f a e)
  unfolding create create_alert
  create-IsMade f a e = elim (Bool-cases f.create) [
    | inl h ↦ inl (rw h refl)
    | inr h ↦ elim (Bool-cases (leb 1 (rivals a a.rule_id e.store.alerts))) [
      | inl g ↦ inr (inl (rw h (rw g refl)))
      | inr g ↦ inr (
          inr (
            ground (arith, g),
            elim (Bool-cases f.reread) [
              | inl k ↦ inl (rw h (rw g (rw k refl)))
              | inr k ↦ inr (rw h (rw g (rw k refl)))
            ],
          ))
    ]
  ]

  -- A log after an alert was announced: a job is queued if there is room.
  abbrev pub IsNoticed : AlertRule → Alert F → Log F → Log F → Type 0
  IsNoticed rule a l k =
      (k ≡ l)
      ⊎ ((length l.queue < notif_queue_size)
          × (k ≡ record l { queue = l.queue ++ record { rule = rule; alert = a } ∷ [] }))

  send_notifications-IsNoticed :
      (w : Wiring) (rule : AlertRule) (a : Alert F) (e : Engine F)
      → IsNoticed rule a (log_of e) (log_of (send_notifications w rule a e))
  unfolding send_notifications
  send_notifications-IsNoticed w rule a e =
      elim (Bool-cases (not w.has_notifier || has_none rule.channel_ids)) [
        | inl h ↦ inl (rw h refl)
        | inr h ↦ elim (Bool-cases (ltb (length e.notif_queue) notif_queue_size)) [
          | inl g ↦ inr (ltb→lt (length e.notif_queue) notif_queue_size g, rw h (rw g refl))
          | inr g ↦ inl (rw h (rw g refl))
        ]
      ]

  pub announce-IsNoticed :
      (w : Wiring) (f : Faults) (rule : AlertRule) (a : Alert F) (e : Engine F)
      → IsNoticed rule a (log_of e) (log_of (announce w f rule a e))
  unfolding announce
  announce-IsNoticed w f rule a e =
      let recorded = record_history f a.id rule.id "fired" actor e in
      let told = broadcast w (alert_triggered a) recorded in
      subst (λ l. IsNoticed rule a l (log_of (send_notifications w rule a told)))
        (log_of-broadcast w (alert_triggered a) recorded
          ∙ log_of-record_history f a.id rule.id "fired" actor e)
        (send_notifications-IsNoticed w rule a told)

  opened-IsNoticed :
      (rule : AlertRule) (a : Alert F) (l k : Log F)
      → IsNew l a
      → IsNoticed rule a (opened a l) k
      → LogSteps l k
  opened-IsNoticed rule a l k new (inl same) =
      subst (LogSteps l) (sym same) (next here (open_unnoticed l a new))
  opened-IsNoticed rule a l k new (inr (room, same)) =
      subst (LogSteps l) (sym same) (next here (open_noticed l a rule new room))

  module _ (rule : AlertRule) (device : MonitoredDevice) (message : AlertMessage F) where
    new_alert-IsNew :
        (e : Engine F)
        → rivals (new_alert rule device message) (some rule.id) e.store.alerts ≡ 0
        → IsNew (log_of e) (record (new_alert rule device message) { id = e.store.next_id })
    new_alert-IsNew e free = (rule.id, refl, refl, refl, free)

    -- A row whose announcement does not happen.
    pub lost-LogSteps :
        (e : Engine F)
        → rivals (new_alert rule device message) (some rule.id) e.store.alerts ≡ 0
        → LogSteps (log_of e) (log_of (with_row (new_alert rule device message) e))
    lost-LogSteps e free = next here (
        open_unnoticed (log_of e) (record (new_alert rule device message) { id = e.store.next_id })
          (new_alert-IsNew e free))

    pub announced-LogSteps :
        (w : Wiring) (f : Faults) (e : Engine F)
        → rivals (new_alert rule device message) (some rule.id) e.store.alerts ≡ 0
        → LogSteps (log_of e) (
            log_of (
              announce w f rule
                (record (new_alert rule device message) { id = e.store.next_id })
                (with_row (new_alert rule device message) e)))
    announced-LogSteps w f e free =
        opened-IsNoticed rule _ (log_of e) _ (new_alert-IsNew e free)
          (announce-IsNoticed w f rule _ (with_row (new_alert rule device message) e))

  pub point_at_found-log :
      (v : Evaluation F) (o : Option (Alert F)) (e : Engine F)
      → log_of (point_at_found v o e) ≡ log_of e
  unfolding point_at
  point_at_found-log v none e = refl
  point_at_found-log v (some a) e = log_of-upsert_state v.faults v.rule v.device _ e

  pub after_create-LogSteps :
      (w : Wiring) (v : Evaluation F) (message : AlertMessage F) (e : Engine F)
      (made : Created F × Engine F)
      → IsMade (new_alert v.rule v.device message) e made
      → LogSteps (log_of e) (log_of (after_create w v made))
  unfolding after_create
  after_create-LogSteps w v message e made (inl h) = rw h here
  after_create-LogSteps w v message e made (inr (inl h)) = rw h (
      quiet
        (point_at_found-log v (find_active_alert_for_rule v.faults.find_again v.rule v.device e) e))
  after_create-LogSteps w v message e made (inr (inr (free, inl h))) =
      rw h (lost-LogSteps v.rule v.device message e free)
  after_create-LogSteps w v message e made (inr (inr (free, inr h))) = rw h (
      append-LogSteps (announced-LogSteps v.rule v.device message w v.faults e free)
        (quiet (log_of-upsert_state v.faults v.rule v.device _ _)))
