-- ===== src/Engine/Notifications/Retries.antt =====
-- engine/alert.go: how often a channel is tried, and what the outcome means.
use rayavriti_netmonitor.Common.{
  ℕ, zero, suc, ◌+◌, ◌≤◌, ◌<◌, ◌≡◌, ◌⊎◌, refl, subst, Bool, true, false, arith, Bool-cases, inl,
  inr, if◌then◌else◌,
}
use rayavriti_netmonitor.Engine.Notifications.{
  Line, Outcome, one_more, max_retries, deliver_from, deliver,
}

module _ (l : Line) where
  -- The attempts from `attempt` on: `failed` of them fail and wait, and one more is the last. It
  -- succeeds, or it fails as well, and then no retry is left or the deadline has passed.
  abbrev pub IsOutcome : ℕ → ℕ → Outcome → Type 0
  IsOutcome retries attempt o =
      (failed : ℕ) × (failed ≤ retries)
      × (o.sends ≡ failed + 1)
      × ((i : ℕ) → i < failed → (l.send (attempt + i) ≡ false) × (l.deadline (attempt + i) ≡ false))
      × (((o.delivered ≡ true) × (l.send (attempt + failed) ≡ true))
          ⊎ ((o.delivered ≡ false)
              × (l.send (attempt + failed) ≡ false)
              × ((failed ≡ retries) ⊎ (l.deadline (attempt + failed) ≡ true))))

  waited :
      (attempt i : ℕ)
      → l.send attempt ≡ false
      → l.deadline attempt ≡ false
      → ((j : ℕ)
          → suc j ≡ i
          → (l.send (attempt + 1 + j) ≡ false) × (l.deadline (attempt + 1 + j) ≡ false))
      → (l.send (attempt + i) ≡ false) × (l.deadline (attempt + i) ≡ false)
  waited attempt zero s d rest =
      subst (λ k. (l.send k ≡ false) × (l.deadline k ≡ false)) (omega arith) (s, d)
  waited attempt (suc j) s d rest =
      subst (λ k. (l.send k ≡ false) × (l.deadline k ≡ false)) (omega arith) (rest j refl)

  retry-IsOutcome :
      (retries attempt : ℕ) (o : Outcome)
      → l.send attempt ≡ false
      → l.deadline attempt ≡ false
      → IsOutcome retries (attempt + 1) o
      → IsOutcome (suc retries) attempt (one_more o)
  retry-IsOutcome retries attempt o s d (failed, bound, count, before, last) =
      let moved : attempt + 1 + failed ≡ attempt + suc failed = omega arith in
      (
        suc failed,
        omega (arith, bound),
        omega (arith, count),
        (λ i h. waited attempt i s d (λ j e. before j (omega (arith, h, e)))),
        elim last [
          | inl (ok, sent) ↦ inl (ok, subst (λ k. l.send k ≡ true) moved sent)
          | inr (bad, sent, why) ↦ inr (
            bad,
            subst (λ k. l.send k ≡ false) moved sent,
            elim why [
              | inl out ↦ inl (omega (arith, out))
              | inr late ↦ inr (subst (λ k. l.deadline k ≡ true) moved late)
            ],
          )
        ],
      )

  -- No attempt before the first.
  none_before :
      (attempt i : ℕ) → i < 0 → (l.send (attempt + i) ≡ false) × (l.deadline (attempt + i) ≡ false)
  none_before attempt i h = let bad : ⊥ = omega (arith, h) in elim bad [ ]

  sent-IsOutcome :
      (retries attempt : ℕ)
      → l.send attempt ≡ true
      → IsOutcome retries attempt (record { delivered = true; sends = 1 })
  sent-IsOutcome retries attempt e =
      let here : attempt ≡ attempt + 0 = omega arith in
      (0, omega arith, refl, none_before attempt, inl (refl, subst (λ k. l.send k ≡ true) here e))

  late-IsOutcome :
      (retries attempt : ℕ)
      → l.send attempt ≡ false
      → (0 ≡ retries) ⊎ (l.deadline attempt ≡ true)
      → IsOutcome retries attempt (record { delivered = false; sends = 1 })
  late-IsOutcome retries attempt e why =
      let here : attempt ≡ attempt + 0 = omega arith in
      (
        0,
        omega arith,
        refl,
        none_before attempt,
        inr (
          refl,
          subst (λ k. l.send k ≡ false) here e,
          elim why [
            | inl out ↦ inl out
            | inr late ↦ inr (subst (λ k. l.deadline k ≡ true) here late)
          ],
        ),
      )

  chosen-IsOutcome :
      (retries attempt : ℕ) (rest : Outcome) (b d : Bool)
      → l.send attempt ≡ b
      → l.deadline attempt ≡ d
      → IsOutcome retries (attempt + 1) rest
      → IsOutcome (suc retries) attempt (
          if b
          then record { delivered = true; sends = 1 }
          else if d
          then record { delivered = false; sends = 1 }
          else one_more rest)
  chosen-IsOutcome retries attempt rest true d s e out = sent-IsOutcome (suc retries) attempt s
  chosen-IsOutcome retries attempt rest false true s e out =
      late-IsOutcome (suc retries) attempt s (inr e)
  chosen-IsOutcome retries attempt rest false false s e out =
      retry-IsOutcome retries attempt rest s e out

  deliver_from-IsOutcome :
      (retries attempt : ℕ) → IsOutcome retries attempt (deliver_from l retries attempt)
  unfolding deliver_from
  deliver_from-IsOutcome zero attempt = elim (Bool-cases (l.send attempt)) [
    | inl e ↦ rw e (sent-IsOutcome 0 attempt e)
    | inr e ↦ rw e (late-IsOutcome 0 attempt e (inl refl))
  ]
  deliver_from-IsOutcome (suc retries) attempt =
      chosen-IsOutcome retries attempt (deliver_from l retries (attempt + 1)) (l.send attempt)
        (l.deadline attempt) refl refl (deliver_from-IsOutcome retries (attempt + 1))

  -- A channel is tried again after each failure, at most four times in all: the outcome is a delivery
  -- exactly if the last attempt succeeded, every attempt before it failed within the deadline, and a
  -- failed last attempt was the fourth or was followed by the deadline.
  pub deliver-IsOutcome : IsOutcome max_retries 0 (deliver l)
  unfolding deliver
  deliver-IsOutcome = deliver_from-IsOutcome max_retries 0
