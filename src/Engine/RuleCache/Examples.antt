-- ===== src/Engine/RuleCache/Examples.antt =====
-- A load that a write overtakes, at concrete inputs.
use rayavriti_netmonitor.Common.{◌≡◌, refl, true, none, some, [], ◌∷◌, select}
use rayavriti_netmonitor.Engine.Types.{Condition, AlertRule}
use rayavriti_netmonitor.Engine.RuleCache.{
  invalidate, cached, is_active, finish_load, System, Steps, here, next, begun, table_read,
  finished, written, invalidated, new_system,
}
use rayavriti_netmonitor.Engine.RuleCache.Fresh.{cached-is_active}

abbrev condition : Condition
condition = record {
  id = 1;
  type = "threshold";
  metric_field = "cpu_usage";
  operator = "gt";
  value = "90";
  duration_seconds = 0;
}

abbrev rule : AlertRule
rule = record {
  id = 7;
  name = "CPU";
  severity = "critical";
  scope_type = "global";
  device_id = none;
  enabled = true;
  condition_logic = "all";
  cooldown_sec = 0;
  auto_resolve = true;
  conditions = condition ∷ [];
  channel_ids = [];
}

-- A load reads an empty table, the rule is written and announced, the load ends and a second one runs.
abbrev read_empty : System
read_empty = record (new_system []) { loads = record { gen = 0; read = some [] } ∷ [] }

abbrev overtaken : System
overtaken = record read_empty { table = rule ∷ []; unannounced = 1 }

abbrev announced : System
announced = record overtaken { cache = invalidate overtaken.cache; unannounced = 0 }

abbrev first_done : System
first_done = record {
  cache = finish_load 5 0 [] (invalidate (new_system []).cache);
  table = rule ∷ [];
  loads = [];
  unannounced = 0;
}

abbrev second_done : System
second_done = record first_done {
  cache = finish_load 6 first_done.cache.gen (rule ∷ []) first_done.cache;
}

steps : Steps (new_system []) second_done
steps =
    next
      (next
        (next
          (next
            (next
              (next (next (next here (begun (new_system []))) (table_read (new_system []) 0 [] []))
                (written read_empty (rule ∷ [])))
              (invalidated overtaken 0 refl))
            (finished announced 5 0 [] [] []))
          (begun first_done))
        (table_read first_done first_done.cache.gen [] []))
      (finished first_done 6 first_done.cache.gen (rule ∷ []) [] [])

cached_rule : cached 7 second_done.cache ≡ some (rule ∷ [])
unfolding cached finish_load invalidate
cached_rule = refl

cached-is_active_example : rule ∷ [] ≡ select is_active (rule ∷ [])
cached-is_active_example = cached-is_active [] second_done 7 (rule ∷ []) steps refl cached_rule
