-- ===== src/Scheduler/ResultPipeline/Statuses.antt =====
-- result_pipeline.go: of the results of a device in one batch the latest gives its status.
use rayavriti_netmonitor.Common.{
  ℕ, suc, ◌≤◌, true, false, not, ◌&&◌, List, [], ◌∷◌, Option, none, some, ◌≡◌, refl, subst, str_eq,
  ◌==◌, ==_iff, arith, Bool-cases, inl, inr,
}
use mathlib.Core.List.{Memᴰ}
use rayavriti_netmonitor.Common.Assoc.{
  lookup, insert, lookup-insert, Every, insert-Every, lookup-Every, nat_eq,
}
use rayavriti_netmonitor.Scheduler.Types.{PollResult}
use rayavriti_netmonitor.Scheduler.ResultPipeline.Batch.{
  after, supersedes, note_latest, latest_from,
}

-- The order of finishing times, the zero time first.
abbrev pub rank : Option ℕ → ℕ
rank none = 0
rank (some t) = suc t

after-false : (a b : Option ℕ) → after a b ≡ false → rank a ≤ rank b
after-false none b h = omega arith
after-false (some t) none h = cc
after-false (some t) (some u) h = ground arith

after-true : (a b : Option ℕ) → after a b ≡ true → rank b ≤ rank a
after-true none b h = cc
after-true (some t) none h = omega arith
after-true (some t) (some u) h = ground arith

abbrev Latest : Type 0 → Type 0
Latest F = List (ℕ × PollResult F)

module _ {F : Type 0} where
  -- The map has a result for the device that finished no earlier.
  abbrev Covers : ℕ → PollResult F → Latest F → Type 0
  Covers id v m =
      (w : PollResult F) × (lookup id m ≡ some w) × (rank v.finished_at ≤ rank w.finished_at)

  insert-Covers :
      (id : ℕ) (v pr : PollResult F) (m : Latest F)
      → lookup id m ≡ some v
      → supersedes pr (lookup pr.device.id m) ≡ true
      → Covers id v (insert pr.device.id pr m)
  insert-Covers id v pr m found newer = elim (Bool-cases (pr.device.id == id)) [
    | inl same ↦ (
      pr,
      rw (lookup-insert pr.device.id id pr m, same) refl,
      after-true pr.finished_at v.finished_at
          (ground (arith, newer, found, ==_iff pr.device.id id, same)),
    )
    | inr other ↦ (v, rw (lookup-insert pr.device.id id pr m, other) found, omega arith)
  ]

  note_latest-keeps :
      (id : ℕ) (v pr : PollResult F) (m : Latest F)
      → lookup id m ≡ some v
      → Covers id v (note_latest pr m)
  unfolding note_latest
  note_latest-keeps id v pr m found =
      elim (Bool-cases (not (str_eq pr.status "") && supersedes pr (lookup pr.device.id m))) [
        | inl newer ↦ rw newer (insert-Covers id v pr m found (ground arith))
        | inr older ↦ rw older (v, found, omega arith)
      ]

  older-Covers :
      (pr : PollResult F) (m : Latest F) (o : Option (PollResult F))
      → lookup pr.device.id m ≡ o
      → supersedes pr o ≡ false
      → Covers pr.device.id pr m
  older-Covers pr m none e h = cc
  older-Covers pr m (some v) e h = (v, e, after-false pr.finished_at v.finished_at h)

  note_latest-Covers :
      (pr : PollResult F) (m : Latest F)
      → str_eq pr.status "" ≡ false
      → Covers pr.device.id pr (note_latest pr m)
  unfolding note_latest
  note_latest-Covers pr m given = elim (Bool-cases (supersedes pr (lookup pr.device.id m))) [
    | inl newer ↦
        rw (given, newer)
          (
            pr,
            ground (
              arith,
              lookup-insert pr.device.id pr.device.id pr m,
              ==_iff pr.device.id pr.device.id,
            ),
            omega arith,
          )
    | inr older ↦ rw (given, older) (older-Covers pr m (lookup pr.device.id m) refl older)
  ]

  latest_from-keeps :
      (id : ℕ) (v : PollResult F) (batch : List (PollResult F)) (m : Latest F)
      → lookup id m ≡ some v
      → Covers id v (latest_from batch m)
  unfolding latest_from
  latest_from-keeps id v [] m e = (v, e, omega arith)
  latest_from-keeps id v (pr ∷ batch) m e =
      let (w, f, le) = note_latest-keeps id v pr m e in
      let (x, g, le') = latest_from-keeps id w batch (note_latest pr m) f in
      (x, g, omega (arith, le, le'))

  latest_from-Covers :
      (pr : PollResult F) (batch : List (PollResult F)) (m : Latest F)
      → Memᴰ pr batch
      → str_eq pr.status "" ≡ false
      → Covers pr.device.id pr (latest_from batch m)
  unfolding latest_from
  latest_from-Covers pr [] m x given = elim x [ ]
  latest_from-Covers pr (qr ∷ batch) m (Memᴰ.head e) given =
      let (w, f, le) =
        subst (λ x. Covers pr.device.id pr (note_latest x m)) e (note_latest-Covers pr m given) in
      let (x, g, le') = latest_from-keeps pr.device.id w batch (note_latest qr m) f in
      (x, g, omega (arith, le, le'))
  latest_from-Covers pr (qr ∷ batch) m (Memᴰ.tail t) given =
      latest_from-Covers pr batch (note_latest qr m) t given

  -- An entry is a result of the batch, of its device, with a status.
  abbrev From : List (PollResult F) → ℕ → PollResult F → Type 0
  From all id w = Memᴰ w all × (w.device.id ≡ id) × (str_eq w.status "" ≡ false)

  note_latest-Every :
      (all : List (PollResult F)) (pr : PollResult F) (m : Latest F)
      → Memᴰ pr all
      → Every (From all) m
      → Every (From all) (note_latest pr m)
  unfolding note_latest
  note_latest-Every all pr m here every =
      elim (Bool-cases (not (str_eq pr.status "") && supersedes pr (lookup pr.device.id m))) [
        | inl newer ↦
            rw newer
              (insert-Every (From all) pr.device.id pr m every (here, refl, ground (arith, newer)))
        | inr older ↦ rw older every
      ]

  latest_from-Every :
      (all batch : List (PollResult F)) (m : Latest F)
      → ((pr : PollResult F) → Memᴰ pr batch → Memᴰ pr all)
      → Every (From all) m
      → Every (From all) (latest_from batch m)
  unfolding latest_from
  latest_from-Every all [] m sub every = every
  latest_from-Every all (pr ∷ batch) m sub every =
      latest_from-Every all batch (note_latest pr m) (λ qr t. sub qr (Memᴰ.tail t))
        (note_latest-Every all pr m (sub pr (Memᴰ.head refl)) every)

  -- A device with a result in the batch that has a status gets a status from a result of the batch,
  -- of that device, which has a status and finished no earlier.
  pub latest_from_lem :
      (pr : PollResult F) (batch : List (PollResult F))
      → Memᴰ pr batch
      → str_eq pr.status "" ≡ false
      → (w : PollResult F) × (lookup pr.device.id (latest_from batch []) ≡ some w)
        × (rank pr.finished_at ≤ rank w.finished_at)
        × Memᴰ w batch
        × (w.device.id ≡ pr.device.id)
        × (str_eq w.status "" ≡ false)
  latest_from_lem pr batch here given =
      let (w, f, le) = latest_from-Covers pr batch [] here given in
      let (mem, own, has) =
        lookup-Every (From batch) (latest_from batch []) pr.device.id w
          (latest_from-Every batch batch [] (λ qr t. t) tt) f in
      (w, f, le, mem, own, has)
