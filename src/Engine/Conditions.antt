-- ===== src/Engine/Conditions.antt =====
-- alert_conditions.go: one condition of a rule against a metric. float64 and strconv.ParseFloat are a
-- parameter; `now` is the reading of the clock.
use rayavriti_netmonitor.Common.{
  ℕ, Bool, false, not, ◌||◌, ◌&&◌, String, str_eq, Option, none, some, ltb, if◌then◌else◌,
}
use rayavriti_netmonitor.Engine.Types.{
  Condition, MetricReading, AnomalyBaseline, Description, undescribed, no_value, compared,
  status_changed, status_is, ports_changed, no_data, no_anomaly_value, few_samples, anomalous,
  normal, ConditionResult,
}

-- The operations on float64 that the conditions use; `since` is time.Since in seconds.
pub record Floats (F : Type 0) : Type 0 where
  pub parse : String → Option F
  pub zero : F
  pub one : F
  pub two_and_a_half : F
  pub three_hundred : F
  pub epsilon : F
  pub lt : F → F → Bool
  pub le : F → F → Bool
  pub sub : F → F → F
  pub div : F → F → F
  pub abs : F → F
  pub since : ℕ → ℕ → F

module _ {F : Type 0} (fl : Floats F) where
  unfoldable pub compare_float : String → F → F → Bool
  compare_float op actual threshold =
      if str_eq op "gt" || str_eq op ">"
      then fl.lt threshold actual
      else if str_eq op "lt" || str_eq op "<"
      then fl.lt actual threshold
      else if str_eq op "gte" || str_eq op ">="
      then fl.le threshold actual
      else if str_eq op "lte" || str_eq op "<="
      then fl.le actual threshold
      else if str_eq op "eq" || str_eq op "=="
      then fl.lt (fl.abs (fl.sub actual threshold)) fl.epsilon
      else if str_eq op "neq" || str_eq op "!="
      then fl.le fl.epsilon (fl.abs (fl.sub actual threshold))
      else false

  -- The start of each result; the fields that are not set are Go's zero values.
  abbrev pub blank : Condition → String → ConditionResult F
  blank c type = record {
    condition_id = c.id;
    type = type;
    field = c.metric_field;
    operator = c.operator;
    threshold = fl.zero;
    actual_value = fl.zero;
    result = false;
    description = undescribed;
  }

  -- The measured value that a field names; a threshold may also name the custom value.
  unfoldable pub measured_value : String → MetricReading F → Option F
  measured_value field m =
      if str_eq field "response_time"
      then m.response_time
      else if str_eq field "packet_loss"
      then m.packet_loss
      else if str_eq field "cpu_usage"
      then m.cpu_usage
      else if str_eq field "memory_usage"
      then m.memory_usage
      else if str_eq field "bandwidth"
      then m.bandwidth
      else none

  unfoldable pub threshold_value : String → MetricReading F → Option F
  unfolding measured_value
  threshold_value field m =
      if str_eq field "custom_value" then m.custom_value else measured_value field m

  abbrev pub against : Condition → F → Option F → ConditionResult F → ConditionResult F
  unfolding compare_float
  against c threshold none r = record r {
    threshold = threshold;
    description = no_value c.metric_field;
  }
  against c threshold (some actual) r = record r {
    threshold = threshold;
    actual_value = actual;
    result = compare_float c.operator actual threshold;
    description = compared c.metric_field c.operator c.value actual;
  }

  abbrev pub with_threshold :
      Condition → MetricReading F → Option F → ConditionResult F → ConditionResult F
  unfolding against threshold_value
  with_threshold c m none r = r
  with_threshold c m (some threshold) r = against c threshold (threshold_value c.metric_field m) r

  unfoldable pub evaluate_threshold : Condition → MetricReading F → ConditionResult F
  unfolding with_threshold
  evaluate_threshold c m = with_threshold c m (fl.parse c.value) (blank c "threshold")

  abbrev pub or_value : F → Option F → F
  or_value d none = d
  or_value d (some v) = v

  abbrev pub status_matches : Condition → String → Bool
  status_matches c current =
      if str_eq c.operator "eq" || str_eq c.operator "=="
      then str_eq current c.value
      else if str_eq c.operator "neq" || str_eq c.operator "!="
      then not (str_eq current c.value)
      else false

  abbrev pub describe_status : String → String → Description F
  describe_status previous current =
      if not (str_eq previous "") && not (str_eq previous current)
      then status_changed previous current
      else status_is current

  abbrev pub port_state : F → F → ConditionResult F → ConditionResult F
  port_state changes threshold r = record r {
    actual_value = changes;
    threshold = threshold;
    result = fl.le threshold changes;
    description = if fl.le threshold changes then ports_changed changes threshold else undescribed;
  }

  unfoldable pub evaluate_state_change : Condition → MetricReading F → String → ConditionResult F
  evaluate_state_change c m previous =
      let r = blank c "state_change" in
      if str_eq c.metric_field "status"
      then record r {
        result = status_matches c m.status;
        description =
            if status_matches c m.status then describe_status previous m.status else undescribed;
      }
      else if str_eq c.metric_field "port_state"
      then port_state (or_value fl.zero m.port_changes) (or_value fl.one (fl.parse c.value)) r
      else r

  -- A positive number in the text, or else a default.
  abbrev pub positive_or : F → Option F → F
  positive_or d none = d
  positive_or d (some v) = if fl.le v fl.zero then d else v

  unfoldable pub evaluate_absence : ℕ → Condition → MetricReading F → ConditionResult F
  evaluate_absence now c m =
      let duration = positive_or fl.three_hundred (fl.parse c.value) in
      let staleness = fl.since now m.timestamp in
      record (blank c "absence") {
        threshold = duration;
        actual_value = staleness;
        result = fl.lt duration staleness;
        description = if fl.lt duration staleness then no_data staleness duration else undescribed;
      }

  abbrev pub sample_count : Option (AnomalyBaseline F) → ℕ
  sample_count none = 0
  sample_count (some b) = b.sample_count

  abbrev pub with_score : Condition → F → F → F → ConditionResult F → ConditionResult F
  with_score c actual score sensitivity r = record r {
    result = fl.lt sensitivity (fl.abs score);
    description =
        if fl.lt sensitivity (fl.abs score)
        then anomalous c.metric_field actual score
        else normal c.metric_field actual score;
  }

  abbrev pub with_baseline :
      Condition → F → F → Option (AnomalyBaseline F) → ConditionResult F → ConditionResult F
  with_baseline c actual sensitivity none r = record r {
    description = few_samples c.metric_field 0;
  }
  with_baseline c actual sensitivity (some b) r =
      if ltb b.sample_count 10
      then record r { description = few_samples c.metric_field b.sample_count }
      else with_score c actual (fl.div (fl.sub actual b.mean) b.std_dev) sensitivity r

  abbrev pub with_measured :
      Condition → F → Option F → Option (AnomalyBaseline F) → ConditionResult F → ConditionResult F
  with_measured c sensitivity none baseline r = record r {
    description = no_anomaly_value c.metric_field;
  }
  with_measured c sensitivity (some actual) baseline r =
      with_baseline c actual sensitivity baseline (record r { actual_value = actual })

  -- The operator is not copied here.
  unfoldable pub evaluate_anomaly :
      Condition → MetricReading F → Option (AnomalyBaseline F) → ConditionResult F
  unfolding measured_value
  evaluate_anomaly c m baseline =
      let sensitivity = positive_or fl.two_and_a_half (fl.parse c.value) in
      with_measured c sensitivity (measured_value c.metric_field m) baseline
        (record (blank c "anomaly") { operator = ""; threshold = sensitivity })

  unfoldable pub evaluate_condition :
      ℕ → Condition → MetricReading F → String → Option (AnomalyBaseline F) → ConditionResult F
  unfolding evaluate_threshold evaluate_state_change evaluate_absence evaluate_anomaly
  evaluate_condition now c m previous baseline =
      if str_eq c.type "threshold"
      then evaluate_threshold c m
      else if str_eq c.type "state_change"
      then evaluate_state_change c m previous
      else if str_eq c.type "absence"
      then evaluate_absence now c m
      else if str_eq c.type "anomaly"
      then evaluate_anomaly c m baseline
      else record (blank c c.type) { field = ""; operator = "" }
