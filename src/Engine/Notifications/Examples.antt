-- ===== src/Engine/Notifications/Examples.antt =====
-- Deliveries at concrete inputs.
use rayavriti_netmonitor.Common.{◌≡◌, refl, true, false, some, [], ◌∷◌, ltb}
use rayavriti_netmonitor.Engine.Notifications.{
  NotificationChannel, Line, max_retries, deliver_from, deliver, channel_of, deliver_to,
  deliver_notifications,
}
use rayavriti_netmonitor.Engine.Notifications.Retries.{IsOutcome, deliver-IsOutcome}

-- The first two attempts fail.
abbrev flaky : Line
flaky = record { send = λ k. ltb 1 k; deadline = λ k. false }

abbrev mail : NotificationChannel
mail = record { id = 3; type = "email"; name = "ops"; enabled = true }

delivered_third : deliver flaky ≡ record { delivered = true; sends = 3 }
unfolding deliver deliver_from
delivered_third = refl

delivered_one :
    deliver_notifications (λ ch. flaky) (some (mail ∷ [])) (3 ∷ 9 ∷ [])
    ≡ record { channel = mail; action = "notified" } ∷ []
unfolding deliver_notifications channel_of deliver_to deliver deliver_from
delivered_one = refl

deliver-IsOutcome_example : IsOutcome flaky max_retries 0 (deliver flaky)
deliver-IsOutcome_example = deliver-IsOutcome flaky
