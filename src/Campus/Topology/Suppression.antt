-- ===== src/Campus/Topology/Suppression.antt =====
-- topology.go, CheckSuppression: the verdict is exact for any data, also where parents form a cycle.
use rayavriti_netmonitor.Common.{
  ℕ, zero, suc, ◌+◌, ◌*◌, ◌||◌, Bool, ◌≤◌, ◌<◌, true, false, not, List, [], ◌∷◌, Option, none, some,
  ◌≡◌, refl, sym, ◌==◌, ==_iff, length, count_if, count_if-le-length, arith, Bool-cases, inl, inr,
  ◌⊎◌, subst, count_if_mono, Option-cases,
}
use rayavriti_netmonitor.Campus.Topology.{
  DeviceNode, is_down, find, with_id, parent_row, parent_in, parent_of, member, SuppressionResult,
  parent_down, not_suppressed, judge, query_parent, check_from, check_suppression,
}

same_parent :
    {i j : ℕ} {p q : DeviceNode} (o : Option (ℕ × DeviceNode)) (visited : List ℕ)
    → o ≡ some (i, q)
    → o ≡ some (j, p)
    → is_down p ≡ false
    → member j visited ≡ true
    → (is_down q ≡ false) × (member i visited ≡ true)
same_parent none visited f e up seen = cc
same_parent (some x) visited f e up seen = (cc, cc)

module _ (nodes : List DeviceNode) where
  -- The devices above a device.
  pub data Ancestor : ℕ → DeviceNode → Type 0 where
    parent : (id j : ℕ) (p : DeviceNode) → parent_of nodes id ≡ some (j, p) → Ancestor id p
    above :
        (id j : ℕ) (p q : DeviceNode)
        → parent_of nodes id ≡ some (j, p)
        → Ancestor j q
        → Ancestor id q

  -- The nearest device above that is down, and its id.
  pub data NearestDown : ℕ → ℕ → DeviceNode → Type 0 where
    here :
        (id j : ℕ) (p : DeviceNode)
        → parent_of nodes id ≡ some (j, p)
        → is_down p ≡ true
        → NearestDown id j p
    further :
        (id j k : ℕ) (p q : DeviceNode)
        → parent_of nodes id ≡ some (j, p)
        → is_down p ≡ false
        → NearestDown j k q
        → NearestDown id k q

  -- One of the queries that a walk may make fails: two for each row and two more.
  abbrev pub IsFailing : (ℕ → Bool) → Type 0
  IsFailing fails = (k : ℕ) × (k < 2 * suc (length nodes)) × (fails k ≡ true)

  -- What a verdict on a device means.
  abbrev pub Verdict : (ℕ → Bool) → ℕ → SuppressionResult → Type 0
  Verdict fails id (parent_down j p) = NearestDown id j p
  Verdict fails id not_suppressed =
      IsFailing fails ⊎ ((p : DeviceNode) → Ancestor id p → is_down p ≡ false)

  -- The parent of a device, if there is one, is up and visited.
  abbrev IsPassed : List ℕ → ℕ → Type 0
  IsPassed visited v =
      (j : ℕ) (p : DeviceNode)
      → parent_of nodes v ≡ some (j, p)
      → (is_down p ≡ false) × (member j visited ≡ true)

  closed-Ancestor :
      (visited : List ℕ)
      → ((v : ℕ) → member v visited ≡ true → IsPassed visited v)
      → (id : ℕ) (q : DeviceNode) → Ancestor id q
      → member id visited ≡ true
      → is_down q ≡ false
  closed-Ancestor visited passed id q (Ancestor.parent id' j p e) m = (passed id m j p e).0
  closed-Ancestor visited passed id q (Ancestor.above id' j p q' e a) m =
      closed-Ancestor visited passed j q a (passed id m j p e).1

  -- All that is visited but the current device is passed.
  abbrev Progress : ℕ → List ℕ → Type 0
  Progress current visited =
      (member current visited ≡ true)
      × ((v : ℕ) → member v visited ≡ true → (v ≡ current) ⊎ IsPassed visited v)

  IsPassed-closed :
      (current : ℕ) (visited : List ℕ)
      → Progress current visited
      → IsPassed visited current
      → (v : ℕ) → member v visited ≡ true
      → IsPassed visited v
  IsPassed-closed current visited progress passed v m = elim (progress.1 v m) [
    | inl same ↦ subst (IsPassed visited) (sym same) passed
    | inr before ↦ before
  ]

  weaken : (v k : ℕ) (visited : List ℕ) → IsPassed visited v → IsPassed (k ∷ visited) v
  weaken v k visited passed j p e = let (up, seen) = passed j p e in (up, ground (arith, seen))

  advance :
      (current j : ℕ) (p : DeviceNode) (visited : List ℕ)
      → parent_of nodes current ≡ some (j, p)
      → is_down p ≡ false
      → Progress current visited
      → Progress j (j ∷ visited)
  advance current j p visited e up progress = (
    ground (arith, ==_iff j j),
    λ v m. elim (Bool-cases (j == v)) [
      | inl same ↦ inl (sym ((==_iff j v).0 same))
      | inr other ↦ elim (progress.1 v (ground (arith, m, other))) [
        | inl now ↦ inr (λ i q f.
            same_parent (parent_of nodes current) (j ∷ visited)
              (subst (λ x. parent_of nodes x ≡ some (i, q)) now f) e up
              (ground (arith, ==_iff j j)))
        | inr before ↦ inr (weaken v j visited before)
      ]
    ],
  )

-- The rows whose device is not visited.
abbrev unvisited : List ℕ → List DeviceNode → ℕ
unvisited visited nodes = count_if (λ n. not (member n.device_id visited)) nodes

unvisited_mono :
    (j : ℕ) (visited : List ℕ) (nodes : List DeviceNode)
    → unvisited (j ∷ visited) nodes ≤ unvisited visited nodes
unvisited_mono j visited nodes = count_if_mono _ _ nodes (λ n. ground arith)

unvisited-find :
    (j : ℕ) (p : DeviceNode) (visited : List ℕ) (nodes : List DeviceNode)
    → find nodes j ≡ some p
    → member j visited ≡ false
    → unvisited (j ∷ visited) nodes < unvisited visited nodes
unvisited-find j p visited [] e fresh = cc
unvisited-find j p visited (n ∷ nodes) e fresh = elim (Bool-cases (n.device_id == j)) [
  | inl same ↦ ground (arith, same, ==_iff n.device_id j, fresh, unvisited_mono j visited nodes)
  | inr other ↦ ground (arith, other, unvisited-find j p visited nodes (rw other at e) fresh)
]

with_id-some :
    (i j : ℕ) (o : Option DeviceNode) (p : DeviceNode)
    → with_id i o ≡ some (j, p)
    → (i ≡ j) × (o ≡ some p)
with_id-some i j none p e = cc
with_id-some i j (some q) p e = (cc, cc)

parent_in-find :
    (nodes : List DeviceNode) (n : Option DeviceNode) (j : ℕ) (p : DeviceNode)
    → parent_in nodes n ≡ some (j, p)
    → find nodes j ≡ some p
parent_in-find nodes none j p e = cc
parent_in-find nodes (some n) j p e = row n.parent_device_id e
  where
    row : (o : Option ℕ) → parent_row nodes o ≡ some (j, p) → find nodes j ≡ some p
    row none f = cc
    row (some i) f =
        let (same, found) = with_id-some i j (find nodes i) p f in
        subst (λ k. find nodes k ≡ some p) same found

parent_of-find :
    (nodes : List DeviceNode) (id j : ℕ) (p : DeviceNode)
    → parent_of nodes id ≡ some (j, p)
    → find nodes j ≡ some p
unfolding parent_of
parent_of-find nodes id j p e = parent_in-find nodes (find nodes id) j p e

module _ (fails : ℕ → Bool) (nodes : List DeviceNode) where
  query_failed :
      (n turn : ℕ)
      → turn + suc n ≤ suc (length nodes)
      → (fails (2 * turn) || fails (2 * turn + 1)) ≡ true
      → IsFailing nodes fails
  query_failed n turn turns failed = elim (Bool-cases (fails (2 * turn))) [
    | inl first ↦ (2 * turn, omega (arith, turns), first)
    | inr other ↦ (2 * turn + 1, omega (arith, turns), ground (arith, failed, other))
  ]

  -- With more fuel than unvisited rows, a walk that started at `id` ends with a right verdict.
  check_from-Verdict :
      (n turn current : ℕ) (visited : List ℕ) (id : ℕ)
      → unvisited visited nodes < n
      → turn + n ≤ suc (length nodes)
      → Progress nodes current visited
      → member id visited ≡ true
      → ((k : ℕ) (q : DeviceNode) → NearestDown nodes current k q → NearestDown nodes id k q)
      → (r : SuppressionResult) × (check_from fails nodes n turn current visited ≡ some r)
        × Verdict nodes fails id r
  unfolding check_from query_parent judge
  check_from-Verdict zero turn current visited id fuel turns progress m lift =
      let bad : ⊥ = omega (arith, fuel) in elim bad [ ]
  check_from-Verdict (suc n) turn current visited id fuel turns progress m lift =
      elim (Bool-cases (fails (2 * turn) || fails (2 * turn + 1))) [
        | inl failed ↦ rw failed (not_suppressed, refl, inl (query_failed n turn turns failed))
        | inr answered ↦ rw answered (elim (Option-cases (parent_of nodes current)) [
          | inl e ↦ rw e (
            not_suppressed,
            refl,
            inr (λ q a.
                closed-Ancestor nodes visited
                  (IsPassed-closed nodes current visited progress (λ j p f. cc)) id q a m),
          )
          | inr ((j, p), e) ↦ elim (Bool-cases (is_down p)) [
            | inl down ↦
                rw e
                  (rw down (parent_down j p, refl, lift j p (NearestDown.here current j p e down)))
            | inr up ↦ elim (Bool-cases (member j visited)) [
              | inl seen ↦ rw e (
                  rw up (
                    rw seen (
                      not_suppressed,
                      refl,
                      inr (λ q a.
                          closed-Ancestor nodes visited
                            (IsPassed-closed nodes current visited progress
                              (λ i q' f. same_parent (parent_of nodes current) visited f e up seen))
                            id q a m),
                    )))
              | inr fresh ↦ rw e (
                  rw up (
                    rw fresh (
                      check_from-Verdict n (suc turn) j (j ∷ visited) id
                        (omega (
                          arith,
                          fuel,
                          unvisited-find j p visited nodes (parent_of-find nodes current j p e)
                              fresh,
                        ))
                        (omega (arith, turns)) (advance nodes current j p visited e up progress)
                        (ground (arith, m))
                        (λ k q a. lift k q (NearestDown.further current j k p q e up a)))))
            ]
          ]
        ])
      ]

  -- CheckSuppression ends for any rows, also where parents form a cycle, and whichever of its queries
  -- fail. If it suppresses the alert, it names the nearest device above that is down; if not, every
  -- device above is not down, or one of the queries that the walk may make fails: a failed query is
  -- taken for the end of the walk.
  pub check_suppression-Verdict :
      (id : ℕ)
      → (r : SuppressionResult) × (check_suppression fails nodes id ≡ some r)
        × Verdict nodes fails id r
  unfolding check_suppression
  check_suppression-Verdict id =
      check_from-Verdict (suc (length nodes)) 0 id (id ∷ []) id
        (omega (arith, count_if-le-length (λ n. not (member n.device_id (id ∷ []))) nodes))
        (omega arith) (ground (arith, ==_iff id id), λ v m. inl (ground (arith, m, ==_iff id v)))
        (ground (arith, ==_iff id id)) (λ k q a. a)
