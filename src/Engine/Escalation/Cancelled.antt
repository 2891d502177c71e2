-- ===== src/Engine/Escalation/Cancelled.antt =====
-- escalation.go: a cancelled escalation tells nobody but who is being told already.
use rayavriti_netmonitor.Common.{ℕ, ◌≡◌, false, ◌==◌}
use rayavriti_netmonitor.Common.Assoc.{nat_eq}
use rayavriti_netmonitor.Engine.Escalation.{Event, started}

module _ (alert : ℕ) where
  -- An event that does not start an escalation of the alert.
  abbrev pub IsOther : Event → Type 0
  IsOther (started other steps contacts) = (other == alert) ≡ false
  IsOther _ = Unit
