-- ===== src/Campus/Topology/Examples.antt =====
-- Tests of the model of topology.go, and its theorems at concrete inputs.
use rayavriti_netmonitor.Common.{
  ℕ, ◌<◌, Bool, false, true, List, [], ◌∷◌, Option, none, some, String, ◌≡◌, refl, arith, ◌==◌,
  ==_iff, Bool-cases, inl, inr, subst,
}
use rayavriti_netmonitor.Campus.Topology.{
  DeviceNode, parent_of, member, check_suppression, query_parent, check_from, judge,
  SuppressionResult, parent_down, not_suppressed, ancestors_from,
}
use rayavriti_netmonitor.Campus.Topology.Suppression.{Verdict, check_suppression-Verdict}
use rayavriti_netmonitor.Campus.Topology.Ancestors.{
  AreAncestors, ancestors_from-AreAncestors, ancestors_from-cycle,
}
use rayavriti_netmonitor.Campus.Topology.Forest.{HasDistinctIds}

abbrev node : ℕ → Option ℕ → String → DeviceNode
node id parent status = record {
  device_id = id;
  name = "core";
  host = "10.0.0.1";
  status = status;
  category = "switch";
  location_id = none;
  parent_device_id = parent;
  dependency_port = "";
}

-- Device 3 hangs on 2, and 2 on 1, which is down.
abbrev chain : List DeviceNode
chain = node 1 none "down" ∷ node 2 (some 1) "up" ∷ node 3 (some 2) "up" ∷ []

-- Devices 1 and 2 are each other's parent.
abbrev cycle : List DeviceNode
cycle = node 1 (some 2) "up" ∷ node 2 (some 1) "up" ∷ []

abbrev all_answer : ℕ → Bool
all_answer k = false

-- The second query, for the parent of device 3, fails.
parent_unknown : check_suppression (λ k. k == 1) chain 3 ≡ some not_suppressed
unfolding check_suppression check_from query_parent judge parent_of
parent_unknown = refl

chain_suppressed : check_suppression all_answer chain 3 ≡ some (parent_down 1 (node 1 none "down"))
unfolding check_suppression check_from query_parent judge parent_of
chain_suppressed = refl

cycle_not_suppressed : check_suppression all_answer cycle 1 ≡ some not_suppressed
unfolding check_suppression check_from query_parent judge parent_of
cycle_not_suppressed = refl

check_suppression-Verdict_example :
    (r : SuppressionResult) × (check_suppression all_answer chain 3 ≡ some r)
    × Verdict chain all_answer 3 r
check_suppression-Verdict_example = check_suppression-Verdict all_answer chain 3

chain_lower : (v j : ℕ) (p : DeviceNode) → parent_of chain v ≡ some (j, p) → j < v
unfolding parent_of
chain_lower v j p e = ground (arith, e)

abbrev HasParent : ℕ → Type 0
HasParent v =
    (j : ℕ) × (p : DeviceNode) × (parent_of cycle v ≡ some (j, p)) × (member j (1 ∷ 2 ∷ []) ≡ true)

cycle_closed : (v : ℕ) → member v (1 ∷ 2 ∷ []) ≡ true → HasParent v
unfolding parent_of
cycle_closed v m = elim (Bool-cases (1 == v)) [
  | inl one ↦ subst HasParent ((==_iff 1 v).0 one) (2, node 2 (some 1) "up", refl, refl)
  | inr other ↦
      let two : 2 ≡ v = ground (arith, m, other) in
      subst HasParent two (1, node 1 (some 2) "up", refl, refl)
]

chain_distinct : HasDistinctIds chain
chain_distinct id = ground arith

ancestors_from-AreAncestors_example :
    (ps : List DeviceNode) × (ancestors_from chain 4 3 ≡ some ps) × AreAncestors chain 3 ps
ancestors_from-AreAncestors_example =
    ancestors_from-AreAncestors chain (λ v. v) chain_lower 4 3 (omega arith)

ancestors_from-cycle_example : ancestors_from cycle 1000 1 ≡ none
ancestors_from-cycle_example = ancestors_from-cycle cycle (1 ∷ 2 ∷ []) cycle_closed 1000 1 refl
