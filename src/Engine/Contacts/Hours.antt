-- ===== src/Engine/Contacts/Hours.antt =====
-- contacts.go: quiet hours, which may go past midnight.
use rayavriti_netmonitor.Common.{ℕ, ◌≡◌, ◌≢◌, not, some, arith}
use rayavriti_netmonitor.Engine.Contacts.{Bytes, parse_hhmm, is_within, in_quiet_hours}

is_within-not :
    (now start end : ℕ)
    → start ≢ end
    → is_within now (some end) (some start) ≡ not (is_within now (some start) (some end))
unfolding is_within
is_within-not now start end differs = ground (arith, differs)

-- Quiet hours and the hours between their end and their start share out the day: when both times
-- parse and differ, a minute is in exactly one of the two, also where one goes past midnight.
pub in_quiet_hours-not :
    (now start end : ℕ) (a b : Bytes)
    → parse_hhmm a ≡ some start
    → parse_hhmm b ≡ some end
    → start ≢ end
    → in_quiet_hours now (some b) (some a) ≡ not (in_quiet_hours now (some a) (some b))
unfolding in_quiet_hours
in_quiet_hours-not now start end a b first last differs =
    rw first (rw last (is_within-not now start end differs))
