-- ===== src/Campus/Maintenance/Effective.antt =====
-- maintenance.go: which window is found, and when a recurring one is active.
use rayavriti_netmonitor.Common.{
  ℕ, Bool, true, false, not, ◌&&◌, List, [], ◌∷◌, ◌++◌, ◌≡◌, refl, ap, sym, subst, if◌then◌else◌,
  All, inl, inr, ◌⊎◌,
}
use rayavriti_netmonitor.Campus.Maintenance.{
  MaintenanceWindow, World, Target, window_applies_to, window_is_active, MaintenanceStatus,
  status_of, no_maintenance, is_under_maintenance,
}

module _ (w : World) (t : Target) (now : ℕ) where
  -- A window that is enabled, applies to the device and is active.
  abbrev pub is_effective : MaintenanceWindow → Bool
  is_effective m = m.enabled && (window_applies_to w m t && window_is_active w m now)

  -- The status is that of the first effective window, or there is none.
  abbrev pub IsFirst : List MaintenanceWindow → MaintenanceStatus → Type 0
  IsFirst windows s =
      ((s ≡ no_maintenance) × All (λ m. is_effective m ≡ false) windows)
      ⊎ ((before : List MaintenanceWindow) × (m : MaintenanceWindow) × (after : List
            MaintenanceWindow)
          × (windows ≡ before ++ m ∷ after)
          × (s ≡ status_of m)
          × (is_effective m ≡ true)
          × All (λ n. is_effective n ≡ false) before)

  skip-IsFirst :
      (m : MaintenanceWindow) (windows : List MaintenanceWindow) (s : MaintenanceStatus)
      → is_effective m ≡ false
      → IsFirst windows s
      → IsFirst (m ∷ windows) s
  skip-IsFirst m windows s idle (inl (e, all)) = inl (e, (idle, all))
  skip-IsFirst m windows s idle (inr (before, n, after, e, found, eff, all)) =
      inr (m ∷ before, n, after, ap (◌∷◌ m) e, found, eff, (idle, all))

  step_lem :
      (a b c : Bool) (rest s : MaintenanceStatus)
      → (if not a then rest else if not b then rest else if not c then rest else s)
        ≡ (if a && (b && c) then s else rest)
  step_lem false b c rest s = refl
  step_lem true false c rest s = refl
  step_lem true true false rest s = refl
  step_lem true true true rest s = refl

  either-IsFirst :
      (m : MaintenanceWindow) (windows : List MaintenanceWindow) (rest : MaintenanceStatus)
      (b : Bool)
      → is_effective m ≡ b
      → IsFirst windows rest
      → IsFirst (m ∷ windows) (if b then status_of m else rest)
  either-IsFirst m windows rest true e first = inr ([], m, windows, refl, refl, e, tt)
  either-IsFirst m windows rest false e first = skip-IsFirst m windows rest e first

  -- IsUnderMaintenance gives the status of the first window that is enabled, applies to the device
  -- and is active; if no window does, it says that the device is not under maintenance.
  pub is_under_maintenance-IsFirst :
      (windows : List MaintenanceWindow) → IsFirst windows (is_under_maintenance w t now windows)
  unfolding is_under_maintenance
  is_under_maintenance-IsFirst [] = inl (refl, tt)
  is_under_maintenance-IsFirst (m ∷ windows) =
      let rest = is_under_maintenance w t now windows in
      subst (IsFirst (m ∷ windows))
        (sym (
          step_lem m.enabled (window_applies_to w m t) (window_is_active w m now) rest
            (status_of m)))
        (either-IsFirst m windows rest (is_effective m) refl (is_under_maintenance-IsFirst windows))
