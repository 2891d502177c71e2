-- ===== src/Engine/Notifications.antt =====
-- engine/alert.go, deliverNotifications: an alert to the channels of its rule, with retries. The sends and
-- whether the deadline of 15 seconds passes in a wait are parameters.
pub mod Retries
mod Examples
use rayavriti_netmonitor.Common.{
  ℕ, zero, suc, ◌+◌, Bool, true, false, not, ◌&&◌, String, Option, none, some, List, [], ◌∷◌, ◌++◌,
  ◌==◌, if◌then◌else◌,
}

pub record NotificationChannel : Type 0 where
  pub id : ℕ
  pub type : String
  pub name : String
  pub enabled : Bool

-- What a channel does in each attempt, and whether the deadline passes in the wait after it.
pub record Line : Type 0 where
  pub send : ℕ → Bool
  pub deadline : ℕ → Bool

abbrev pub max_retries : ℕ
max_retries = 3

-- Whether the alert was delivered, and in how many sends.
pub record Outcome : Type 0 where
  pub delivered : Bool
  pub sends : ℕ

abbrev pub one_more : Outcome → Outcome
one_more o = record o { sends = o.sends + 1 }

-- The attempts from `attempt` on, with the retries that are left.
unfoldable pub deliver_from : Line → ℕ → ℕ → Outcome
deliver_from l zero attempt = record { delivered = l.send attempt; sends = 1 }
deliver_from l (suc retries) attempt =
    let rest = deliver_from l retries (attempt + 1) in
    if l.send attempt
    then record { delivered = true; sends = 1 }
    else if l.deadline attempt
    then record { delivered = false; sends = 1 }
    else one_more rest

unfoldable pub deliver : Line → Outcome
unfolding deliver_from
deliver l = deliver_from l max_retries 0

-- The row of the history for a channel.
pub record Delivery : Type 0 where
  pub channel : NotificationChannel
  pub action : String

-- The last channel with an id is the one in the map.
unfoldable pub channel_of : List NotificationChannel → ℕ → Option NotificationChannel
channel_of [] id = none
channel_of (ch ∷ channels) id = later (channel_of channels id)
  where
    later : Option NotificationChannel → Option NotificationChannel
    later none = if ch.id == id then some ch else none
    later (some other) = some other

unfoldable pub deliver_to :
    (NotificationChannel → Line) → Option NotificationChannel → List Delivery
unfolding deliver
deliver_to lines none = []
deliver_to lines (some ch) =
    if ch.enabled
    then record {
      channel = ch;
      action = if (deliver (lines ch)).delivered then "notified" else "notification_failed";
    }
      ∷ []
    else []

-- `none` is that the channels cannot be loaded.
unfoldable pub deliver_notifications :
    (NotificationChannel → Line) → Option (List NotificationChannel) → List ℕ → List Delivery
unfolding channel_of deliver_to
deliver_notifications lines none ids = []
deliver_notifications lines (some channels) [] = []
deliver_notifications lines (some channels) (id ∷ ids) =
    deliver_to lines (channel_of channels id) ++ deliver_notifications lines (some channels) ids
