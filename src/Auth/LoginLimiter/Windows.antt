-- ===== src/Auth/LoginLimiter/Windows.antt =====
-- login_limiter.go: how many attempts from one address are allowed within its window.
use rayavriti_netmonitor.Common.{
  ℕ, ◌+◌, ◌≤◌, List, [], ◌∷◌, ◌++◌, Option, none, some, String, str_eq, str_eq_iff, leb, ◌≡◌, refl,
  ◌∙◌, sym, length, if◌then◌else◌, ◌==◌, arith, Bool-cases, inl, inr, count_if, count_if-append,
  count_if-le-length, one_if,
}
use rayavriti_netmonitor.Common.Assoc.{lookup, lookup-insert, lookup-erase, string_eq}
use rayavriti_netmonitor.Auth.LoginLimiter.{
  Counts, drop_expired, events_or, write_pruned, prune, prune_count, record_event, cleanup_one,
  cleanup_keys,
}

-- The events that are not before `now - window`.
abbrev pub recent : ℕ → ℕ → List ℕ → ℕ
recent now window events = count_if (λ t. leb now (t + window)) events

pub drop_expired-recent :
    (now window later : ℕ) (events : List ℕ)
    → now ≤ later
    → recent later window (drop_expired now window events) ≡ recent later window events
unfolding drop_expired
drop_expired-recent now window later [] h = refl
drop_expired-recent now window later (t ∷ events) h =
    ground (arith, drop_expired-recent now window later events h)

abbrev pub events_of : String → Counts → List ℕ
events_of key m = events_or (lookup key m)

write_pruned-events_of :
    (now window : ℕ) (key k : String) (o : Option (List ℕ)) (m : Counts)
    → lookup key m ≡ o
    → events_of k (write_pruned now window key o m)
      ≡ (if str_eq key k then drop_expired now window (events_of k m) else events_of k m)
unfolding drop_expired
write_pruned-events_of now window key k none m e = elim (Bool-cases (str_eq key k)) [
  | inl same ↦ let missing = rw ((str_eq_iff key k).0 same) at e in rw same (rw missing refl)
  | inr other ↦ rw other refl
]
write_pruned-events_of now window key k (some events) m e = elim (Bool-cases (str_eq key k)) [
  | inl same ↦
      let found = rw ((str_eq_iff key k).0 same) at e in
      rw (lookup-insert key k (drop_expired now window events) m) (rw same (rw found refl))
  | inr other ↦ rw (lookup-insert key k (drop_expired now window events) m) (rw other refl)
]

-- Pruning drops nothing that is recent.
pub prune-recent :
    (now window later : ℕ) (key k : String) (m : Counts)
    → now ≤ later
    → recent later window (events_of k (prune now window key m))
      ≡ recent later window (events_of k m)
unfolding prune
prune-recent now window later key k m h =
    rw (write_pruned-events_of now window key k (lookup key m) m refl)
      (elim (Bool-cases (str_eq key k)) [
        | inl same ↦ rw same (drop_expired-recent now window later (events_of k m) h)
        | inr other ↦ rw other refl
      ])

pub record_event-recent :
    (now window later : ℕ) (key k : String) (m : Counts)
    → recent later window (events_of k (record_event now key m))
      ≡ recent later window (events_of k m)
        + (if str_eq key k then one_if (leb later (now + window)) else 0)
unfolding record_event
record_event-recent now window later key k m =
    rw (lookup-insert key k (events_of key m ++ now ∷ []) m) (elim (Bool-cases (str_eq key k)) [
      | inl same ↦ rw same (
          rw (sym ((str_eq_iff key k).0 same)) (
            omega
              (arith, count_if-append (λ t. leb later (t + window)) (events_of key m) (now ∷ []))))
      | inr other ↦ rw other (omega arith)
    ])

empty-recent :
    (later window : ℕ) (events : List ℕ) → length events ≡ 0 → recent later window events ≡ 0
empty-recent later window events h =
    omega (arith, h, count_if-le-length (λ t. leb later (t + window)) events)

cleanup_one-recent :
    (now window later : ℕ) (key k : String) (m : Counts)
    → now ≤ later
    → recent later window (events_of k (cleanup_one now window key m))
      ≡ recent later window (events_of k m)
unfolding prune_count
cleanup_one-recent now window later key k m h =
    elim (Bool-cases (length (drop_expired now window (events_of key m)) == 0)) [
      | inl expired ↦ rw expired (
          rw (lookup-erase key k m) (elim (Bool-cases (str_eq key k)) [
            | inl same ↦ rw same (
                rw (sym ((str_eq_iff key k).0 same)) (
                  omega (
                    arith,
                    drop_expired-recent now window later (events_of key m) h,
                    empty-recent later window (drop_expired now window (events_of key m))
                        (ground (arith, expired)),
                  )))
            | inr other ↦ rw other refl
          ]))
      | inr kept ↦ rw kept (prune-recent now window later key k m h)
    ]

pub cleanup_keys-recent :
    (now window later : ℕ) (k : String) (keys : List (String × List ℕ)) (m : Counts)
    → now ≤ later
    → recent later window (events_of k (cleanup_keys now window keys m))
      ≡ recent later window (events_of k m)
unfolding cleanup_keys
cleanup_keys-recent now window later k [] m h = refl
cleanup_keys-recent now window later k ((key, events) ∷ rest) m h =
    cleanup_keys-recent now window later k rest (cleanup_one now window key m) h
    ∙ cleanup_one-recent now window later key k m h
