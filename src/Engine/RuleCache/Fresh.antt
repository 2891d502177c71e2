-- ===== src/Engine/RuleCache/Fresh.antt =====
-- rule_cache.go: what is cached is what the table holds.
use rayavriti_netmonitor.Common.{
  ℕ, ◌+◌, ◌≤◌, ◌≡◌, refl, sym, ap, subst, Option, none, some, List, ◌++◌, ◌==◌, ==_iff, All, arith,
  Bool-cases, inl, inr, if◌then◌else◌, select, All-insert, All-remove, All-at, All-imp,
}
use rayavriti_netmonitor.Engine.Types.{AlertRule}
use rayavriti_netmonitor.Engine.RuleCache.{
  RuleCache, invalidate, is_fresh, cached, is_active, finish_load, Load, System, Step, begun,
  table_read, finished, written, invalidated, Steps, here, next, new_system,
}

-- A read of a load that is not older than the table.
abbrev IsRead : List AlertRule → Option (List AlertRule) → Type 0
IsRead table none = Unit
IsRead table (some all) = all ≡ table

-- What has been loaded at a time, if any, are the active rules of the table.
abbrev IsLoaded : List AlertRule → Option ℕ → List AlertRule → Type 0
IsLoaded table none rules = Unit
IsLoaded table (some t) rules = rules ≡ select is_active table

abbrev IsCurrent : ℕ → List AlertRule → Load → Type 0
IsCurrent gen table l = l.gen ≡ gen → IsRead table l.read

-- When every write was announced, the cache and the loads of its generation agree with the table.
abbrev Agrees : System → Type 0
Agrees s =
    IsLoaded s.table s.cache.loaded_at s.cache.rules × All (IsCurrent s.cache.gen s.table) s.loads

abbrev IsOlder : ℕ → Load → Type 0
IsOlder gen l = l.gen ≤ gen

abbrev Inv : System → Type 0
Inv s = All (IsOlder s.cache.gen) s.loads × (s.unannounced ≡ 0 → Agrees s)

finish_load-gen :
    (now gen : ℕ) (all : List AlertRule) (c : RuleCache) → (finish_load now gen all c).gen ≡ c.gen
unfolding finish_load
finish_load-gen now gen all c = elim (Bool-cases (c.gen == gen)) [
  | inl h ↦ rw h refl
  | inr h ↦ rw h refl
]

finish_load-IsLoaded :
    (now gen : ℕ) (all table : List AlertRule) (c : RuleCache)
    → IsLoaded table c.loaded_at c.rules
    → IsCurrent c.gen table (record { gen = gen; read = some all })
    → IsLoaded table (finish_load now gen all c).loaded_at (finish_load now gen all c).rules
unfolding finish_load
finish_load-IsLoaded now gen all table c loaded current = elim (Bool-cases (c.gen == gen)) [
  | inl h ↦ rw h (ap (select is_active) (current (sym ((==_iff c.gen gen).0 h))))
  | inr h ↦ rw h loaded
]

invalidated-Inv :
    (s : System) (n : ℕ)
    → All (IsOlder s.cache.gen) s.loads
    → Inv (record s { cache = invalidate s.cache; unannounced = n })
unfolding invalidate
invalidated-Inv s n older = (
  All-imp (IsOlder s.cache.gen) (IsOlder (s.cache.gen + 1)) s.loads (λ l h. omega (arith, h)) older,
  λ e. (
    tt,
    All-imp (IsOlder s.cache.gen) (IsCurrent (s.cache.gen + 1) s.table) s.loads
        (λ l h f. let bad : ⊥ = omega (arith, h, f) in elim bad [ ]) older,
  ),
)

Step-Inv : {s t : System} → Step s t → Inv s → Inv t
Step-Inv (begun s) (older, agrees) =
    ((omega arith, older), λ e. ((agrees e).0, (λ f. tt, (agrees e).1)))
Step-Inv (table_read s gen before after) (older, agrees) = (
  All-insert (IsOlder s.cache.gen) before after _
      (All-at (IsOlder s.cache.gen) before after _ older)
      (All-remove (IsOlder s.cache.gen) before after _ older),
  λ e. (
    (agrees e).0,
    All-insert (IsCurrent s.cache.gen s.table) before after _ (λ f. refl)
        (All-remove (IsCurrent s.cache.gen s.table) before after _ (agrees e).1),
  ),
)
Step-Inv (finished s now gen all before after) (older, agrees) = (
  subst (λ g. All (IsOlder g) (before ++ after)) (sym (finish_load-gen now gen all s.cache))
      (All-remove (IsOlder s.cache.gen) before after _ older),
  λ e. (
    finish_load-IsLoaded now gen all s.table s.cache (agrees e).0 (
        All-at (IsCurrent s.cache.gen s.table) before after (record { gen = gen; read = some all })
          (agrees e).1),
    subst (λ g. All (IsCurrent g s.table) (before ++ after))
        (sym (finish_load-gen now gen all s.cache))
        (All-remove (IsCurrent s.cache.gen s.table) before after _ (agrees e).1),
  ),
)
Step-Inv (written s table) (older, agrees) = (older, λ e. cc)
Step-Inv (invalidated s n h) (older, agrees) = invalidated-Inv s n older

Steps-Inv : {s t : System} → Steps s t → Inv s → Inv t
Steps-Inv here inv = inv
Steps-Inv (next steps step) inv = Step-Inv step (Steps-Inv steps inv)

cached-IsLoaded :
    (now : ℕ) (c : RuleCache) (table rules : List AlertRule) (o : Option ℕ)
    → IsLoaded table o c.rules
    → (if is_fresh now o then some c.rules else none) ≡ some rules
    → rules ≡ select is_active table
cached-IsLoaded now c table rules none loaded h = cc
cached-IsLoaded now c table rules (some t) loaded h = elim (Bool-cases (is_fresh now (some t))) [
  | inl e ↦ cc (rw e at h, loaded)
  | inr e ↦ cc (rw e at h)
]

-- The cache never hides a change: whatever loads, reads, writes and invalidations have happened in
-- whatever order since the start, once every write of the table was followed by its invalidation, the
-- rules that the cache gives are the active rules of the table, even if a load that began before a
-- write ends after it.
pub cached-is_active :
    (table : List AlertRule) (s : System) (now : ℕ) (rules : List AlertRule)
    → Steps (new_system table) s
    → s.unannounced ≡ 0
    → cached now s.cache ≡ some rules
    → rules ≡ select is_active s.table
unfolding cached
cached-is_active table s now rules steps announced h =
    cached-IsLoaded now s.cache s.table rules s.cache.loaded_at
      ((Steps-Inv steps (tt, λ e. (tt, tt))).1 announced).0 h
