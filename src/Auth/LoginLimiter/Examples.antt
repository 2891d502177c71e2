-- ===== src/Auth/LoginLimiter/Examples.antt =====
-- Tests of the model of login_limiter.go, and its theorem at a concrete input.
use rayavriti_netmonitor.Common.{◌≤◌, List, [], ◌∷◌, ◌≡◌, refl, arith}
use rayavriti_netmonitor.Auth.LoginLimiter.{
  new_login_limiter, minute, allow_in_memory, prune, prune_count, user_exceeded, prune_user,
  record_attempt, drop_expired, record_event, reset_success,
}
use rayavriti_netmonitor.Auth.LoginLimiter.Windows.{recent}
use rayavriti_netmonitor.Auth.LoginLimiter.Attempts.{
  Event, attempted, reset, step, allowed, allowed_bound,
}

abbrev burst : List Event
burst =
    attempted 1 "10.0.0.1" "ann"
    ∷ attempted 2 "10.0.0.1" "ann"
    ∷ attempted 3 "10.0.0.1" "ann"
    ∷ attempted 4 "10.0.0.1" "ann"
    ∷ attempted 5 "10.0.0.1" "ann"
    ∷ attempted 6 "10.0.0.1" "ann"
    ∷ reset "10.0.0.1" "ann"
    ∷ attempted 7 "10.0.0.1" "ann"
    ∷ []

burst_times : allowed "10.0.0.1" burst new_login_limiter ≡ 1 ∷ 2 ∷ 3 ∷ 4 ∷ 5 ∷ 7 ∷ []
unfolding new_login_limiter step allow_in_memory prune prune_count user_exceeded prune_user
    record_attempt drop_expired record_event reset_success
burst_times = refl

allowed_bound_example : recent 8 minute (allowed "10.0.0.1" burst new_login_limiter) ≤ 10
allowed_bound_example = allowed_bound "10.0.0.1" burst 0 8 refl (omega arith)
