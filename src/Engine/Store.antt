-- ===== src/Engine/Store.antt =====
-- The tables of the database that the alert engine uses, and its statements on them: postgres.go and
-- postgres_alertrules.go, with the unique index of migrations.go on the active alert of a rule and a
-- device. A statement may also fail for other reasons, which the callers decide.
use rayavriti_netmonitor.Common.{
  ℕ, ◌+◌, Bool, true, false, not, ◌&&◌, String, str_eq, Option, none, some, List, [], ◌∷◌, ◌++◌,
  ◌==◌, if◌then◌else◌, count_if, leb, select,
}
use rayavriti_netmonitor.Common.Assoc.{lookup, insert, pair_eq}
use rayavriti_netmonitor.Engine.Types.{Alert, AlertRuleState, Snapshot, absent, typed, decoded}
use rayavriti_netmonitor.Engine.Suppression.{SuppressedAlert}

pub record AlertHistory : Type 0 where
  pub alert_id : ℕ
  pub rule_id : ℕ
  pub action : String
  pub actor : String

pub record Store (F : Type 0) : Type 0 where
  pub alerts : List (Alert F)
  pub next_id : ℕ
  pub rule_states : List ((ℕ × ℕ) × AlertRuleState F)
  pub history : List AlertHistory
  pub suppressed_alerts : List SuppressedAlert

abbrev pub is_of_rule : ℕ → Option ℕ → Bool
is_of_rule rule none = false
is_of_rule rule (some r) = r == rule

module _ {F : Type 0} where
  -- The rows that FindActiveAlertByRuleAndDevice asks for.
  abbrev pub is_active_for : ℕ → ℕ → Alert F → Bool
  is_active_for rule device a =
      str_eq a.status "active" && (is_of_rule rule a.rule_id && (a.device_id == device))

  abbrev pub first_active : ℕ → ℕ → List (Alert F) → Option (Alert F)
  first_active rule device [] = none
  first_active rule device (a ∷ alerts) =
      let rest = first_active rule device alerts in
      if is_active_for rule device a then some a else rest

  abbrev pub find_active_alert : ℕ → ℕ → Store F → Option (Alert F)
  find_active_alert rule device s = first_active rule device s.alerts

  -- The active alerts of the rule and the device of an active alert; without a rule there are none.
  abbrev pub rivals : Alert F → Option ℕ → List (Alert F) → ℕ
  rivals a none alerts = 0
  rivals a (some rule) alerts =
      if str_eq a.status "active" then count_if (is_active_for rule a.device_id) alerts else 0

  -- ON CONFLICT DO NOTHING: `none` is that no row comes back.
  unfoldable pub create_alert : Alert F → Store F → Option (Alert F × Store F)
  create_alert a s =
      let row = record a { id = s.next_id } in
      if leb 1 (rivals a a.rule_id s.alerts)
      then none
      else some (row, record s { alerts = s.alerts ++ row ∷ []; next_id = s.next_id + 1 })

  -- The unique index holds if each row has at most itself as a rival.
  abbrev pub is_unique_among : List (Alert F) → List (Alert F) → Bool
  is_unique_among all [] = true
  is_unique_among all (a ∷ alerts) = leb (rivals a a.rule_id all) 1 && is_unique_among all alerts

  abbrev pub with_status : ℕ → String → List (Alert F) → List (Alert F)
  with_status id status [] = []
  with_status id status (a ∷ alerts) =
      (if a.id == id then record a { status = status } else a) ∷ with_status id status alerts

  -- `none` is that the statement fails: the table has a unique index on the rule and the device of its
  -- active alerts (migrations.go, V44), and PostgreSQL refuses a row that breaks it.
  unfoldable pub update_alert_status : ℕ → String → Store F → Option (Store F)
  update_alert_status id status s =
      let alerts = with_status id status s.alerts in
      if is_unique_among alerts alerts then some (record s { alerts = alerts }) else none

  unfoldable pub delete_alert : ℕ → Store F → Store F
  delete_alert id s = record s { alerts = select (λ a. not (a.id == id)) s.alerts }

  -- What json.Unmarshal makes of the snapshot that json.Marshal wrote.
  abbrev pub read_back : Snapshot F → Snapshot F
  read_back absent = absent
  read_back (typed results) = decoded results
  read_back (decoded results) = decoded results

  abbrev pub with_snapshot_read : Option (AlertRuleState F) → Option (AlertRuleState F)
  with_snapshot_read none = none
  with_snapshot_read (some st) =
      some (record st { condition_snapshot = read_back st.condition_snapshot })

  unfoldable pub get_alert_rule_state : ℕ → ℕ → Store F → Option (AlertRuleState F)
  get_alert_rule_state rule device s = with_snapshot_read (lookup (rule, device) s.rule_states)

  unfoldable pub upsert_alert_rule_state : ℕ → ℕ → AlertRuleState F → Store F → Store F
  upsert_alert_rule_state rule device st s = record s {
    rule_states = insert (rule, device) st s.rule_states;
  }
