-- ===== src/Auth/LoginLimiter/Attempts.antt =====
-- login_limiter.go: sequences of login attempts, resets and cleanups.
use rayavriti_netmonitor.Common.{
  and_left, and_right, ℕ, ◌+◌, ◌≤◌, ◌<◌, Bool, true, false, ◌&&◌, List, [], ◌∷◌, ◌++◌, String,
  str_eq, str_eq_iff, leb, ◌≡◌, refl, sym, subst, length, if◌then◌else◌, arith, Bool-cases, inl,
  inr, count_if-append, count_if-le-length,
}
use mathlib.Core.List.{append_assoc}
use rayavriti_netmonitor.Common.Assoc.{string_eq}
use rayavriti_netmonitor.Auth.LoginLimiter.{
  Counts, LoginLimiter, new_login_limiter, drop_expired, prune, prune_count, record_event,
  user_exceeded, prune_user, record_attempt, allow_in_memory, reset_success, cleanup, cleanup_keys,
  minute,
}
use rayavriti_netmonitor.Auth.LoginLimiter.Windows.{
  recent, events_of, drop_expired-recent, prune-recent, record_event-recent, cleanup_keys-recent,
}

-- An attempt has the time, the address and the user's name.
pub data Event : Type 0 where
  attempted : ℕ → String → String → Event
  reset : String → String → Event
  cleaned : ℕ → Event

unfoldable pub step : Event → LoginLimiter → LoginLimiter
unfolding allow_in_memory
step (attempted now ip username) l = (allow_in_memory now ip username l).1
step (reset ip username) l = reset_success ip username l
step (cleaned now) l = cleanup now l

-- The time of the event, if it is an allowed attempt from the address.
abbrev pub allowed_by : String → Event → LoginLimiter → List ℕ
allowed_by a (attempted now ip username) l =
    if (allow_in_memory now ip username l).0 && str_eq ip a then now ∷ [] else []
allowed_by a _ l = []

-- The times of the allowed attempts from an address.
abbrev pub allowed : String → List Event → LoginLimiter → List ℕ
allowed a [] l = []
allowed a (e ∷ es) l = allowed_by a e l ++ allowed a es (step e l)

abbrev pub clock : ℕ → Event → ℕ
clock now (attempted t ip username) = t
clock now (reset ip username) = now
clock now (cleaned t) = t

abbrev pub last_clock : ℕ → List Event → ℕ
last_clock now [] = now
last_clock now (e ∷ es) = last_clock (clock now e) es

-- The clock does not go back.
abbrev pub is_timely : ℕ → List Event → Bool
is_timely now [] = true
is_timely now (e ∷ es) = leb now (clock now e) && is_timely (clock now e) es

-- The attempts allowed so far from the address that are recent are in its counter, and are at most
-- ten.
pub record Inv (a : String) (now : ℕ) (m : Counts) (times : List ℕ) : Type 0 where
  pub held :
      (later : ℕ) → now ≤ later → recent later minute times ≤ recent later minute (events_of a m)
  pub at_most : (later : ℕ) → now ≤ later → recent later minute times ≤ 10

recent-append :
    (later : ℕ) (xs ys : List ℕ)
    → recent later minute (xs ++ ys) ≡ recent later minute xs + recent later minute ys
recent-append later xs ys = count_if-append (λ t. leb later (t + minute)) xs ys

-- A counter with the same recent events will do.
same_recent-Inv :
    (a : String) (now t : ℕ) (m n : Counts) (times : List ℕ)
    → now ≤ t
    → ((later : ℕ)
        → t ≤ later
        → recent later minute (events_of a n) ≡ recent later minute (events_of a m))
    → Inv a now m times
    → Inv a t n (times ++ [])
same_recent-Inv a now t m n times h same inv = record {
  held = λ later le.
      omega
        (arith, same later le, inv.held later (omega (arith, h, le)), recent-append later times []);
  at_most = λ later le.
      omega (arith, recent-append later times [], inv.at_most later (omega (arith, h, le)));
}

-- Below the limit there is room for one more.
room_for_one :
    (a : String) (now t later : ℕ) (m : Counts) (times : List ℕ)
    → now ≤ t
    → t ≤ later
    → leb 10 (prune_count t minute a m) ≡ false
    → Inv a now m times
    → recent later minute times < 10
unfolding prune_count
room_for_one a now t later m times h le room inv =
    let held = inv.held later (omega (arith, h, le)) in
    let kept = drop_expired-recent t minute later (events_of a m) le in
    let most =
      count_if-le-length (λ u. leb later (u + minute)) (drop_expired t minute (events_of a m)) in
    let small : length (drop_expired t minute (events_of a m)) < 10 = ground (arith, room) in
    omega (arith, held, kept, most, small)

recorded-Inv :
    (a ip : String) (now t : ℕ) (m : Counts) (times : List ℕ)
    → now ≤ t
    → leb 10 (prune_count t minute ip m) ≡ false
    → Inv a now m times
    → Inv a t
        (record_event t ip (prune t minute ip m))
        (times ++ (if str_eq ip a then t ∷ [] else []))
recorded-Inv a ip now t m times h room inv = elim (Bool-cases (str_eq ip a)) [
  | inl same ↦
      let room_here = rw ((str_eq_iff ip a).0 same) at room in
      record {
        held = λ later le. rw same (
            ground (
              arith,
              same,
              record_event-recent t minute later ip a (prune t minute ip m),
              prune-recent t minute later ip a m le,
              recent-append later times (t ∷ []),
              inv.held later (omega (arith, h, le)),
            ));
        at_most = λ later le. rw same (
            ground (
              arith,
              room_for_one a now t later m times h le room_here inv,
              recent-append later times (t ∷ []),
            ));
      }
  | inr other ↦ rw other (
      same_recent-Inv a now t m (record_event t ip (prune t minute ip m)) times h
        (λ later le. ground (
          arith,
          other,
          record_event-recent t minute later ip a (prune t minute ip m),
          prune-recent t minute later ip a m le,
        ))
        inv)
]

-- The settings of NewLoginLimiter for addresses.
abbrev Settings : LoginLimiter → Type 0
Settings l = (l.ip_limit ≡ 10) × (l.ip_window ≡ minute)

attempt-Inv :
    (a ip username : String) (now t : ℕ) (l : LoginLimiter) (times : List ℕ)
    → Settings l
    → now ≤ t
    → Inv a now l.ip_counts times
    → Settings (allow_in_memory t ip username l).1
      × Inv a t
          (allow_in_memory t ip username l).1.ip_counts
          (times ++ allowed_by a (attempted t ip username) l)
unfolding allow_in_memory prune_user record_attempt
attempt-Inv a ip username now t l times (limit, window) h inv =
    let pruned : Inv a t (prune t l.ip_window ip l.ip_counts) (times ++ []) =
      subst (λ w. Inv a t (prune t w ip l.ip_counts) (times ++ [])) (sym window)
        (same_recent-Inv a now t l.ip_counts (prune t minute ip l.ip_counts) times h
          (λ later le. prune-recent t minute later ip a l.ip_counts le) inv) in
    elim (Bool-cases (leb l.ip_limit (prune_count t l.ip_window ip l.ip_counts))) [
      | inl full ↦ rw full ((limit, window), pruned)
      | inr room ↦
          elim (Bool-cases (
            user_exceeded t ip username
              (record l { ip_counts = prune t l.ip_window ip l.ip_counts }))) [
                | inl many ↦ rw room (rw many ((limit, window), pruned))
                | inr few ↦
                    let room_here : leb 10 (prune_count t minute ip l.ip_counts) ≡ false =
                      subst (λ w. leb 10 (prune_count t w ip l.ip_counts) ≡ false) window
                        (subst (λ n. leb n (prune_count t l.ip_window ip l.ip_counts) ≡ false) limit
                          room) in
                    rw room (
                      rw few (
                        (limit, window),
                        subst
                            (λ w.
                              Inv a t (record_event t ip (prune t w ip l.ip_counts))
                                (times ++ (if str_eq ip a then t ∷ [] else [])))
                            (sym window)
                            (recorded-Inv a ip now t l.ip_counts times h room_here inv),
                      ))
              ]
    ]

step-Inv :
    (a : String) (e : Event) (now : ℕ) (l : LoginLimiter) (times : List ℕ)
    → Settings l
    → leb now (clock now e) ≡ true
    → Inv a now l.ip_counts times
    → Settings (step e l) × Inv a (clock now e) (step e l).ip_counts (times ++ allowed_by a e l)
unfolding step reset_success cleanup
step-Inv a (attempted t ip username) now l times s timely inv =
    attempt-Inv a ip username now t l times s (ground (arith, timely)) inv
step-Inv a (reset ip username) now l times s timely inv = (
  s,
  same_recent-Inv a now now l.ip_counts l.ip_counts times (omega arith) (λ later le. refl) inv,
)
step-Inv a (cleaned t) now l times (limit, window) timely inv =
    let now_or_later : now ≤ t = ground (arith, timely) in
    (
      (limit, window),
      subst (λ w. Inv a t (cleanup_keys t w l.ip_counts l.ip_counts) (times ++ [])) (sym window)
          (same_recent-Inv a now t l.ip_counts (cleanup_keys t minute l.ip_counts l.ip_counts) times
            now_or_later
            (λ later le. cleanup_keys-recent t minute later a l.ip_counts l.ip_counts le) inv),
    )

allowed-Inv :
    (a : String) (es : List Event) (now : ℕ) (l : LoginLimiter) (times : List ℕ)
    → Settings l
    → is_timely now es ≡ true
    → Inv a now l.ip_counts times
    → (later : ℕ) → last_clock now es ≤ later
    → recent later minute (times ++ allowed a es l) ≤ 10
allowed-Inv a [] now l times s timely inv later le =
    omega (arith, recent-append later times [], inv.at_most later le)
allowed-Inv a (e ∷ es) now l times s timely inv later le =
    let (s', inv') = step-Inv a e now l times s (and_left (leb now (clock now e)) _ timely) inv in
    let bound =
      allowed-Inv a es (clock now e) (step e l) (times ++ allowed_by a e l) s'
        (and_right (leb now (clock now e)) _ timely) inv' later le in
    subst (λ xs. recent later minute xs ≤ 10)
      (append_assoc times (allowed_by a e l) (allowed a es (step e l))) bound

-- Whatever attempts, resets and cleanups came in any order from the start, with a clock that does
-- not go back, at most ten attempts from an address were allowed within the last minute.
pub allowed_bound :
    (a : String) (es : List Event) (now later : ℕ)
    → is_timely now es ≡ true
    → last_clock now es ≤ later
    → recent later minute (allowed a es new_login_limiter) ≤ 10
unfolding new_login_limiter
allowed_bound a es now later timely le =
    allowed-Inv a es now new_login_limiter [] (refl, refl) timely
      (record { held = λ l h. omega arith; at_most = λ l h. omega arith }) later le
