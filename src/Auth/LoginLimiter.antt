-- ===== src/Auth/LoginLimiter.antt =====
-- backend/internal/auth/login_limiter.go: the in-memory limiter of login attempts. Times are
-- nanoseconds, and the clock's reading is an argument. With Redis the limits are Redis's own.
pub mod Windows
pub mod Attempts
mod Examples
use rayavriti_netmonitor.Common.{
  ℕ, ◌+◌, ◌*◌, Bool, true, false, not, ◌||◌, List, [], ◌∷◌, ◌++◌, Option, none, some, String,
  str_eq, ltb, leb, length, if◌then◌else◌, ◌==◌,
}
use rayavriti_netmonitor.Common.Assoc.{lookup, insert, erase, string_eq}
use Prim.Native.String.{◌++◌ as concat}

-- The times of the attempts that a key's counter holds.
abbrev pub Counts : Type 0
Counts = List (String × List ℕ)

pub record LoginLimiter : Type 0 where
  pub ip_counts : Counts
  pub un_counts : Counts
  pub ip_limit : ℕ
  pub ip_window : ℕ
  pub user_limit : ℕ
  pub user_window : ℕ
  pub user_global_limit : ℕ

abbrev pub minute : ℕ
minute = 60000000000

unfoldable pub new_login_limiter : LoginLimiter
new_login_limiter = record {
  ip_counts = [];
  un_counts = [];
  ip_limit = 10;
  ip_window = minute;
  user_limit = 5;
  user_window = minute;
  user_global_limit = 30;
}

-- The loop of prune: the leading events before `now - window` are dropped.
unfoldable pub drop_expired : ℕ → ℕ → List ℕ → List ℕ
drop_expired now window [] = []
drop_expired now window (t ∷ events) =
    let rest = drop_expired now window events in if ltb (t + window) now then rest else t ∷ events

abbrev pub events_or : Option (List ℕ) → List ℕ
events_or none = []
events_or (some events) = events

abbrev pub write_pruned : ℕ → ℕ → String → Option (List ℕ) → Counts → Counts
write_pruned now window key none m = m
write_pruned now window key (some events) m = insert key (drop_expired now window events) m

-- prune writes to the counter of the key if there is one; `prune_count` is what it returns.
unfoldable pub prune : ℕ → ℕ → String → Counts → Counts
unfolding drop_expired
prune now window key m = write_pruned now window key (lookup key m) m

unfoldable pub prune_count : ℕ → ℕ → String → Counts → ℕ
unfolding drop_expired
prune_count now window key m = length (drop_expired now window (events_or (lookup key m)))

unfoldable pub record_event : ℕ → String → Counts → Counts
record_event now key m = insert key (events_or (lookup key m) ++ now ∷ []) m

abbrev pub user_ip_key : String → String → String
user_ip_key username ip = concat username (concat "|" ip)

-- The counters of the user; the second is looked at only if the first is below its limit.
unfoldable pub user_exceeded : ℕ → String → String → LoginLimiter → Bool
unfolding prune_count
user_exceeded now ip username l =
    leb l.user_limit (prune_count now l.user_window (user_ip_key username ip) l.un_counts)
    || leb l.user_global_limit (prune_count now l.user_window username l.un_counts)

unfoldable pub prune_user : ℕ → String → String → LoginLimiter → LoginLimiter
unfolding prune prune_count
prune_user now ip username l =
    let m = prune now l.user_window (user_ip_key username ip) l.un_counts in
    record l {
      un_counts =
          if leb l.user_limit (prune_count now l.user_window (user_ip_key username ip) l.un_counts)
          then m
          else prune now l.user_window username m;
    }

unfoldable pub record_attempt : ℕ → String → String → LoginLimiter → LoginLimiter
unfolding record_event
record_attempt now ip username l = record l {
  ip_counts = record_event now ip l.ip_counts;
  un_counts =
      if str_eq username ""
      then l.un_counts
      else record_event now username (record_event now (user_ip_key username ip) l.un_counts);
}

-- allowInMemory: whether the attempt is allowed, and the limiter after it.
unfoldable pub allow_in_memory : ℕ → String → String → LoginLimiter → Bool × LoginLimiter
unfolding prune prune_count user_exceeded prune_user record_attempt
allow_in_memory now ip username l =
    let pruned = record l { ip_counts = prune now l.ip_window ip l.ip_counts } in
    if leb l.ip_limit (prune_count now l.ip_window ip l.ip_counts)
    then (false, pruned)
    else if user_exceeded now ip username pruned
    then (false, prune_user now ip username pruned)
    else (true, record_attempt now ip username (prune_user now ip username pruned))

unfoldable pub reset_success : String → String → LoginLimiter → LoginLimiter
reset_success ip username l = record l { un_counts = erase (user_ip_key username ip) l.un_counts }

abbrev pub cleanup_one : ℕ → ℕ → String → Counts → Counts
cleanup_one now window key m =
    if prune_count now window key m == 0 then erase key m else prune now window key m

-- One round of cleanupLoop over the keys of a map.
unfoldable pub cleanup_keys : ℕ → ℕ → List (String × List ℕ) → Counts → Counts
unfolding prune prune_count
cleanup_keys now window [] m = m
cleanup_keys now window ((key, events) ∷ rest) m =
    cleanup_keys now window rest (cleanup_one now window key m)

unfoldable pub cleanup : ℕ → LoginLimiter → LoginLimiter
unfolding cleanup_keys
cleanup now l = record l {
  ip_counts = cleanup_keys now l.ip_window l.ip_counts l.ip_counts;
  un_counts = cleanup_keys now l.user_window l.un_counts l.un_counts;
}
