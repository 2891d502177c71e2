-- ===== src/Campus/Topology/Ancestors.antt =====
-- topology.go, GetDeviceDependencies: the walk up from a device, which keeps no set of visited devices.
use rayavriti_netmonitor.Common.{
  ℕ, zero, suc, ◌<◌, true, List, [], ◌∷◌, Option, none, some, ◌≡◌, refl, arith, inl, inr,
  Option-cases, sym, ap, subst,
}
use mathlib.Core.List.{Memᴰ}
use rayavriti_netmonitor.Campus.Topology.{
  DeviceNode, parent_of, member, cons_parent, climb, ancestors_from,
}
use rayavriti_netmonitor.Campus.Topology.Suppression.{Ancestor}

same_pair :
    {i j : ℕ} {p q : DeviceNode} (o : Option (ℕ × DeviceNode))
    → o ≡ some (i, q)
    → o ≡ some (j, p)
    → (i ≡ j) × (q ≡ p)
same_pair none f e = cc
same_pair (some x) f e = (cc, cc)

module _ (nodes : List DeviceNode) where
  -- Exactly the devices above `id`.
  abbrev pub AreAncestors : ℕ → List DeviceNode → Type 0
  AreAncestors id ps =
      ((q : DeviceNode) → Memᴰ q ps → Ancestor nodes id q)
      × ((q : DeviceNode) → Ancestor nodes id q → Memᴰ q ps)

  no_ancestors : (id : ℕ) → parent_of nodes id ≡ none → AreAncestors id []
  no_ancestors id e = (λ q m. elim m [ ], λ q a. contradiction q a)
    where
      contradiction : (q : DeviceNode) → Ancestor nodes id q → Memᴰ q []
      contradiction q (Ancestor.parent id' j p f) = cc
      contradiction q (Ancestor.above id' j p q' f a) = cc

  cons_ancestors :
      (id j : ℕ) (p : DeviceNode) (ps : List DeviceNode)
      → parent_of nodes id ≡ some (j, p)
      → AreAncestors j ps
      → AreAncestors id (p ∷ ps)
  cons_ancestors id j p ps e (sound, complete) = (into, from)
    where
      into : (q : DeviceNode) → Memᴰ q (p ∷ ps) → Ancestor nodes id q
      into q (Memᴰ.head same) = subst (Ancestor nodes id) (sym same) (Ancestor.parent id j p e)
      into q (Memᴰ.tail m) = Ancestor.above id j p q e (sound q m)

      from : (q : DeviceNode) → Ancestor nodes id q → Memᴰ q (p ∷ ps)
      from q (Ancestor.parent id' i r f) = Memᴰ.head (same_pair (parent_of nodes id) f e).1
      from q (Ancestor.above id' i r q' f a) =
          Memᴰ.tail
            (complete q (subst (λ k. Ancestor nodes k q) (same_pair (parent_of nodes id) f e).0 a))

  -- If the parents form no cycle, that is, each parent has a lesser rank than its child, the walk up
  -- takes at most one more step than the rank and finds exactly the devices above.
  pub ancestors_from-AreAncestors :
      (rank : ℕ → ℕ)
      → ((v j : ℕ) (p : DeviceNode) → parent_of nodes v ≡ some (j, p) → rank j < rank v)
      → (n id : ℕ) → rank id < n
      → (ps : List DeviceNode) × (ancestors_from nodes n id ≡ some ps) × AreAncestors id ps
  unfolding ancestors_from climb
  ancestors_from-AreAncestors rank lower zero id fuel =
      let bad : ⊥ = omega (arith, fuel) in elim bad [ ]
  ancestors_from-AreAncestors rank lower (suc n) id fuel =
      elim (Option-cases (parent_of nodes id)) [
        | inl e ↦ rw e ([], refl, no_ancestors id e)
        | inr ((j, p), e) ↦
            let (ps, found, exact) =
              ancestors_from-AreAncestors rank lower n j (omega (arith, fuel, lower id j p e)) in
            rw e (p ∷ ps, ap (cons_parent (j, p)) found, cons_ancestors id j p ps e exact)
      ]

  -- If some devices each have a parent among them, the walk up from one of them does not end: no
  -- number of steps is enough.
  pub ancestors_from-cycle :
      (cycle : List ℕ)
      → ((v : ℕ)
          → member v cycle ≡ true
          → (j : ℕ) × (p : DeviceNode) × (parent_of nodes v ≡ some (j, p))
            × (member j cycle ≡ true))
      → (n id : ℕ) → member id cycle ≡ true
      → ancestors_from nodes n id ≡ none
  unfolding ancestors_from climb
  ancestors_from-cycle cycle closed zero id m = refl
  ancestors_from-cycle cycle closed (suc n) id m =
      let (j, p, e, next) = closed id m in
      rw e (ap (cons_parent (j, p)) (ancestors_from-cycle cycle closed n j next))
