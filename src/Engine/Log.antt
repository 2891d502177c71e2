-- ===== src/Engine/Log.antt =====
-- What the alert engine promises, without its conditions, states and faults: a log of alerts with a
-- queue of notifications, where an alert is opened only if its rule and device have none that is
-- active, is queued at most when it is opened, and is closed at will.
pub mod Announcing
pub mod Evaluating
pub mod Refinement
pub mod Invariants
use rayavriti_netmonitor.Common.{
  ℕ, ◌+◌, ◌<◌, ◌≡◌, true, List, [], ◌∷◌, ◌++◌, Option, some, String, length, count_if, select, not,
  ◌==◌,
}
use rayavriti_netmonitor.Engine.Types.{Alert, AlertRule}
use rayavriti_netmonitor.Engine.Store.{is_active_for, with_status, is_unique_among}
use rayavriti_netmonitor.Engine.Effects.{Engine, NotificationJob, notif_queue_size}

pub record Log (F : Type 0) : Type 0 where
  pub alerts : List (Alert F)
  pub next_id : ℕ
  pub queue : List (NotificationJob F)

module _ {F : Type 0} where
  abbrev pub log_of : Engine F → Log F
  log_of e = record { alerts = e.store.alerts; next_id = e.store.next_id; queue = e.notif_queue }

  -- An alert that may be opened.
  abbrev pub IsNew : Log F → Alert F → Type 0
  IsNew l a =
      (rule : ℕ) × (a.rule_id ≡ some rule)
      × (a.status ≡ "active")
      × (a.id ≡ l.next_id)
      × (count_if (is_active_for rule a.device_id) l.alerts ≡ 0)

  abbrev pub opened : Alert F → Log F → Log F
  opened a l = record l { alerts = l.alerts ++ a ∷ []; next_id = l.next_id + 1 }

  -- The steps of the engine.
  pub data LogStep : Log F → Log F → Type 0 where
    open_unnoticed : (l : Log F) (a : Alert F) → IsNew l a → LogStep l (opened a l)
    open_noticed :
        (l : Log F) (a : Alert F) (rule : AlertRule)
        → IsNew l a
        → length l.queue < notif_queue_size
        → LogStep l
            (record (opened a l) { queue = l.queue ++ record { rule = rule; alert = a } ∷ [] })
    close :
        (l : Log F) (id : ℕ) → LogStep l (record l { alerts = with_status id "resolved" l.alerts })

  pub data LogSteps (l : Log F) : Log F → Type 0 where
    here : LogSteps l l
    next : {k j : Log F} → LogSteps l k → LogStep k j → LogSteps l j

  pub append-LogSteps : {l k j : Log F} → LogSteps l k → LogSteps k j → LogSteps l j
  append-LogSteps steps here = steps
  append-LogSteps steps (next more step) = next (append-LogSteps steps more) step
