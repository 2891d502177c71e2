-- ===== src/Engine/Contacts/Targets.antt =====
-- contacts.go, resolveTarget: the target of a contact and its channel.
use rayavriti_netmonitor.Common.{
  ℕ, ◌≡◌, refl, false, str_eq, List, [], ◌∷◌, Bool-cases, inl, inr, All,
}
use rayavriti_netmonitor.Engine.Contacts.{
  Bytes, DeviceContact, ResolvedContact, resolve_target, should_notify, in_quiet_hours,
  resolve_for_device,
}

-- A row whose contact is told.
abbrev pub IsTold : ℕ → Bytes → ResolvedContact → Type 0
IsTold now severity r =
    (in_quiet_hours now r.contact.quiet_hours_start r.contact.quiet_hours_end ≡ false)
    × (str_eq r.target "" ≡ false)
    × (r.channel ≡ r.contact.preferred_channel)

-- Everybody who is told has a target, is not in quiet hours, and is told by the preferred channel.
pub resolve_for_device-IsTold :
    (now : ℕ) (severity : Bytes) (rows : List DeviceContact)
    → All (IsTold now severity) (resolve_for_device now severity rows)
unfolding resolve_for_device
resolve_for_device-IsTold now severity [] = tt
resolve_for_device-IsTold now severity (d ∷ rows) =
    elim (Bool-cases (should_notify d.notify_on severity)) [
      | inl n ↦
          elim (Bool-cases
            (in_quiet_hours now d.contact.quiet_hours_start d.contact.quiet_hours_end)) [
              | inl q ↦ rw n (rw q (resolve_for_device-IsTold now severity rows))
              | inr q ↦ elim (Bool-cases (str_eq (resolve_target d.contact) "")) [
                | inl t ↦ rw n (rw q (rw t (resolve_for_device-IsTold now severity rows)))
                | inr t ↦
                    rw n (rw q (rw t ((q, t, refl), resolve_for_device-IsTold now severity rows)))
              ]
            ]
      | inr n ↦ rw n (resolve_for_device-IsTold now severity rows)
    ]
