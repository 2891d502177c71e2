-- ===== src/Engine/Examples.antt =====
-- The alert engine on a device with one rule, where float64 is the natural numbers.
use rayavriti_netmonitor.Common.{
  ℕ, ◌+◌, ◌-◌, ◌≤◌, ◌<◌, ◌≡◌, refl, Bool, true, false, none, some, str_eq, List, [], ◌∷◌, length,
  ltb, leb, arith, count_if, one_if, if◌then◌else◌, ◌⊎◌,
}
use rayavriti_netmonitor.Campus.Topology.{
  DeviceNode, check_suppression, check_from, query_parent, judge, parent_of,
}
use rayavriti_netmonitor.Campus.Maintenance.{World, Target, is_under_maintenance}
use rayavriti_netmonitor.Engine.Types.{
  Condition, AlertRule, MonitoredDevice, MetricReading, ConditionResult, AlertRuleState, pending,
  notified,
}
use rayavriti_netmonitor.Engine.Conditions.{
  Floats, evaluate_condition, evaluate_threshold, threshold_value, measured_value, compare_float,
}
use rayavriti_netmonitor.Engine.Suppression.{check_suppression_for_device}
use rayavriti_netmonitor.Engine.Store.{
  get_alert_rule_state, upsert_alert_rule_state, create_alert, update_alert_status,
}
use rayavriti_netmonitor.Engine.Effects.{
  Faults, Wiring, Engine, upsert_state, idle_state, rule_applies_to_device, rule_triggered,
  sustained_duration, find_active_alert_for_rule, create, record_history, broadcast,
  send_notifications, build_alert_message,
}
use rayavriti_netmonitor.Engine.Firing.{
  Evaluation, fire_alert, unless_active, unless_suppressed, after_create, announce,
}
use rayavriti_netmonitor.Engine.Alerts.{
  Moment, current_state, evaluate_all, handle, handle_condition_met, start_pending, on_pending,
  on_resolved, touch,
}
use rayavriti_netmonitor.Engine.Rules.{process_metric, evaluate_rule}
use rayavriti_netmonitor.Engine.Log.{log_of, LogSteps}
use rayavriti_netmonitor.Engine.Log.Invariants.{is_job_of}
use rayavriti_netmonitor.Engine.Log.Refinement.{process_metric-LogSteps}
use rayavriti_netmonitor.Engine.System.{
  System, Event, metric_arrived, alert_resolved, job_taken, run, step,
}
use rayavriti_netmonitor.Engine.System.Runs.{Invariant, run-is_job_of}
use rayavriti_netmonitor.Engine.Opening.Exact.{opens, evaluate_rule-length}
use rayavriti_netmonitor.Engine.Opening.Unsuppressed.{
  wired, IsUpOrUnknown, IsOpen, evaluate_rule-IsOpen,
}
use rayavriti_netmonitor.Engine.Silent.{
  Act, evaluated, status_set, act_all, HasNoNew, act_all-silent,
}

abbrev floats : Floats ℕ
floats = record {
  parse = λ s. if str_eq s "90" then some 90 else none;
  zero = 0;
  one = 1;
  two_and_a_half = 3;
  three_hundred = 300;
  epsilon = 1;
  lt = ltb;
  le = leb;
  sub = λ a b. a - b;
  div = λ a b. a;
  abs = λ a. a;
  since = λ now t. now - t;
}

abbrev same : ConditionResult ℕ → ConditionResult ℕ → Bool
same a b = false

abbrev cpu_high : Condition
cpu_high = record {
  id = 1;
  type = "threshold";
  metric_field = "cpu_usage";
  operator = "gt";
  value = "90";
  duration_seconds = 0;
}

abbrev rule : AlertRule
rule = record {
  id = 7;
  name = "CPU";
  severity = "critical";
  scope_type = "global";
  device_id = none;
  enabled = true;
  condition_logic = "all";
  cooldown_sec = 0;
  auto_resolve = false;
  conditions = cpu_high ∷ [];
  channel_ids = 1 ∷ [];
}

abbrev switch : MonitoredDevice
switch = record { id = 2; name = "switch"; location_id = none; ip_address = "10.0.0.2" }

abbrev busy : MetricReading ℕ
busy = record {
  status = "up";
  timestamp = 5;
  response_time = none;
  packet_loss = none;
  cpu_usage = some 95;
  memory_usage = none;
  bandwidth = none;
  custom_value = none;
  port_changes = none;
}

abbrev no_faults : Faults
no_faults = record {
  get_state = false;
  find_active = false;
  create = false;
  reread = false;
  find_again = false;
  update_status = false;
  upsert = false;
  record_history = false;
  record_suppressed = false;
}

abbrev at : ℕ → Moment ℕ
at n = record { clock = n; now = n; baseline = λ d f. none; faults = no_faults }

abbrev wiring : Wiring
wiring = record {
  checkers = record { suppression_checker = none; maintenance_checker = none };
  has_recorder = true;
  has_hub = true;
  has_notifier = true;
}

abbrev empty : Engine ℕ
empty = record {
  store = record {
    alerts = [];
    next_id = 1;
    rule_states = [];
    history = [];
    suppressed_alerts = [];
  };
  broadcasts = [];
  notif_queue = [];
}

abbrev pending_state : AlertRuleState ℕ
pending_state = record idle_state { state = pending; first_met_at = some 5 }

abbrev with_state : AlertRuleState ℕ → Engine ℕ
with_state st = record empty { store = record empty.store { rule_states = ((7, 2), st) ∷ [] } }

abbrev system : System ℕ
system = record { engine = empty; taken = [] }

abbrev metric_at : ℕ → Event ℕ
metric_at n = metric_arrived (λ r. at n) (rule ∷ []) switch busy "up"

-- Two metrics make an alert and a job, which a worker takes.
abbrev events : List (Event ℕ)
events = metric_at 5 ∷ metric_at 6 ∷ job_taken ∷ alert_resolved 1 ∷ metric_at 7 ∷ []

taken_once : length (run floats same wiring events system).taken ≡ 1
unfolding run step process_metric rule_applies_to_device evaluate_rule current_state
    get_alert_rule_state upsert_alert_rule_state evaluate_all evaluate_condition evaluate_threshold
    threshold_value measured_value compare_float rule_triggered handle handle_condition_met
    start_pending on_pending on_resolved sustained_duration fire_alert find_active_alert_for_rule
    unless_active unless_suppressed check_suppression_for_device create create_alert after_create
    announce record_history broadcast send_notifications upsert_state update_alert_status
    build_alert_message touch
taken_once = refl

process_metric-LogSteps_example :
    LogSteps
      (log_of empty)
      (log_of (process_metric floats same wiring (λ r. at 5) (rule ∷ []) switch busy "up" empty))
process_metric-LogSteps_example =
    process_metric-LogSteps floats same wiring (λ r. at 5) (rule ∷ []) switch busy "up" empty

abbrev absence : Condition
absence = record cpu_high { type = "absence"; value = "90" }

abbrev absence_rule : AlertRule
absence_rule = record rule { conditions = absence ∷ [] }

system-Invariant : Invariant system
system-Invariant = (λ r d. omega arith, λ id. ground arith)

run-is_job_of_example :
    count_if (is_job_of 1) (run floats same wiring events system).taken
      + count_if (is_job_of 1) (run floats same wiring events system).engine.notif_queue
    ≤ 1
run-is_job_of_example = run-is_job_of floats same wiring events system 1 system-Invariant

evaluate_rule-length_example :
    length
      (evaluate_rule floats same wiring
        (at 6)
        rule
        switch
        busy
        "up"
        (with_state pending_state)).store.alerts
    ≡ 0 + one_if (opens floats same wiring (at 6) rule switch busy "up" (with_state pending_state))
evaluate_rule-length_example =
    evaluate_rule-length floats same wiring (at 6) rule switch busy "up" (with_state pending_state)

abbrev core : DeviceNode
core = record {
  device_id = 2;
  name = "switch";
  host = "10.0.0.2";
  status = "up";
  category = "switch";
  location_id = none;
  parent_device_id = none;
  dependency_port = "";
}

abbrev world : World
world = record {
  parse = λ s. none;
  print_id = λ n. "2";
  contains = λ a b. false;
  today_at = λ a b. 0;
}

abbrev target : MonitoredDevice → Target
target d = record { device_id = d.id; location_id = d.location_id; device_ip = d.ip_address }

campus_opens :
    0
    < length
        (evaluate_rule floats same
          (wired (λ k. false) false (core ∷ []) world target 6 [] floats same wiring)
          (at 6)
          rule
          switch
          busy
          "up"
          (with_state pending_state)).store.alerts
unfolding run step process_metric rule_applies_to_device evaluate_rule current_state
    get_alert_rule_state upsert_alert_rule_state evaluate_all evaluate_condition evaluate_threshold
    threshold_value measured_value compare_float rule_triggered handle handle_condition_met
    start_pending on_pending on_resolved sustained_duration fire_alert find_active_alert_for_rule
    unless_active unless_suppressed check_suppression_for_device create create_alert after_create
    announce record_history broadcast send_notifications upsert_state update_alert_status
    build_alert_message touch check_suppression check_from query_parent judge parent_of
    is_under_maintenance
campus_opens = omega arith

evaluate_rule-IsOpen_example :
    IsUpOrUnknown (λ k. false) false (core ∷ []) world target 6 [] 2
    × ((false ≡ true) ⊎ IsOpen (λ k. false) false (core ∷ []) world target 6 [] switch)
evaluate_rule-IsOpen_example =
    evaluate_rule-IsOpen (λ k. false) false (core ∷ []) world target 6 [] floats same wiring (at 6)
      rule switch busy "up" (with_state pending_state) campus_opens

abbrev fired : AlertRuleState ℕ
fired = record idle_state { state = notified; active_alert_id = some 1 }

abbrev acts : List (Act ℕ)
acts = status_set 1 "resolved" ∷ evaluated (at 900) busy "up" ∷ []

act_all-silent_example :
    HasNoNew
      (with_state fired).store.alerts
      (act_all floats same wiring rule switch acts (with_state fired)).store.alerts
act_all-silent_example =
    act_all-silent floats same wiring rule switch refl acts (with_state fired) (refl, (refl, tt))
      (fired, refl, refl)

abbrev evaluation : Evaluation ℕ
evaluation = record {
  faults = no_faults;
  rule = rule;
  device = switch;
  state = current_state no_faults rule switch (with_state pending_state);
  now = 6;
  results = [];
}
