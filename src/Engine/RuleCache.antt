-- ===== src/Engine/RuleCache.antt =====
-- engine/rule_cache.go: the rules that are kept between evaluations. A load reads the database between
-- its two critical sections, so a change of the rules may fall in between; times are nanoseconds.
pub mod Fresh
mod Examples
use rayavriti_netmonitor.Common.{
  ℕ, ◌+◌, ◌*◌, Bool, true, false, ◌&&◌, Option, none, some, List, [], ◌∷◌, ◌++◌, ◌≡◌, suc, ◌==◌,
  ltb, if◌then◌else◌, length, select,
}
use rayavriti_netmonitor.Engine.Types.{AlertRule}

abbrev pub rule_cache_ttl : ℕ
rule_cache_ttl = 15 * 1000000000

-- `loaded_at` is `none` for the zero time; `gen` is a uint64, which no run brings
-- back to a former value.
pub record RuleCache : Type 0 where
  pub rules : List AlertRule
  pub loaded_at : Option ℕ
  pub gen : ℕ

unfoldable pub invalidate : RuleCache → RuleCache
invalidate c = record c { gen = c.gen + 1; loaded_at = none }

abbrev pub is_fresh : ℕ → Option ℕ → Bool
is_fresh now none = false
is_fresh now (some t) = ltb now (t + rule_cache_ttl)

-- The first critical section: the cached rules, if they are fresh.
unfoldable pub cached : ℕ → RuleCache → Option (List AlertRule)
cached now c = if is_fresh now c.loaded_at then some c.rules else none

abbrev pub is_active : AlertRule → Bool
is_active r = r.enabled && ltb 0 (length r.conditions)

-- The second critical section, with the generation that the first one saw.
unfoldable pub finish_load : ℕ → ℕ → List AlertRule → RuleCache → RuleCache
finish_load now gen all c =
    if c.gen == gen then record c { rules = select is_active all; loaded_at = some now } else c

-- A load that has read the rules and has not finished.
pub record Load : Type 0 where
  pub gen : ℕ
  pub read : Option (List AlertRule)

-- The cache, the table of the rules, the loads that are under way and the writes of the table whose
-- handler has yet to invalidate the cache.
pub record System : Type 0 where
  pub cache : RuleCache
  pub table : List AlertRule
  pub loads : List Load
  pub unannounced : ℕ

abbrev pub with_loads : System → List Load → System
with_loads s loads = record s { loads = loads }

-- What can happen next: a load begins, reads the table or finishes, or a handler writes the table or
-- then invalidates the cache.
pub data Step : System → System → Type 0 where
  begun : (s : System) → Step s (with_loads s (record { gen = s.cache.gen; read = none } ∷ s.loads))
  table_read :
      (s : System) (gen : ℕ) (before after : List Load)
      → Step
          (with_loads s (before ++ record { gen = gen; read = none } ∷ after))
          (with_loads s (before ++ record { gen = gen; read = some s.table } ∷ after))
  finished :
      (s : System) (now gen : ℕ) (all : List AlertRule) (before after : List Load)
      → Step
          (with_loads s (before ++ record { gen = gen; read = some all } ∷ after))
          (record s { cache = finish_load now gen all s.cache; loads = before ++ after })
  written :
      (s : System) (table : List AlertRule)
      → Step s (record s { table = table; unannounced = suc s.unannounced })
  invalidated :
      (s : System) (n : ℕ)
      → s.unannounced ≡ suc n
      → Step s (record s { cache = invalidate s.cache; unannounced = n })

pub data Steps (s : System) : System → Type 0 where
  here : Steps s s
  next : {t u : System} → Steps s t → Step t u → Steps s u

abbrev pub new_system : List AlertRule → System
new_system table = record {
  cache = record { rules = []; loaded_at = none; gen = 0 };
  table = table;
  loads = [];
  unannounced = 0;
}
