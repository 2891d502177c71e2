-- ===== src/Campus/Topology/Forest.antt =====
-- topology.go, BuildDependencyTree: where each device stands.
use rayavriti_netmonitor.Common.{
  ℕ, ◌+◌, ◌≤◌, true, List, [], ◌∷◌, Option, none, some, ◌≡◌, refl, arith, length, count_if, ◌==◌,
  one_if, not,
}
use rayavriti_netmonitor.Campus.Topology.{
  DeviceNode, find, parent_row, with_id, is_root, roots_among, is_child_of, children_of, is_missing,
}

-- No two rows have one id.
abbrev pub HasDistinctIds : List DeviceNode → Type 0
HasDistinctIds nodes = (id : ℕ) → count_if (λ n. id == n.device_id) nodes ≤ 1

-- How many children the devices have together.
abbrev pub children_total : List DeviceNode → List DeviceNode → ℕ
children_total [] all = 0
children_total (n ∷ nodes) all = length (children_of all n.device_id) + children_total nodes all

-- The devices that are the parent.
abbrev parents_count : List DeviceNode → Option ℕ → ℕ
parents_count nodes o = count_if (λ n. is_child_of n.device_id o) nodes

children_total-nil : (nodes : List DeviceNode) → children_total nodes [] ≡ 0
unfolding children_of
children_total-nil [] = refl
children_total-nil (n ∷ nodes) = omega (arith, children_total-nil nodes)

children_total-cons :
    (nodes : List DeviceNode) (c : DeviceNode) (all : List DeviceNode)
    → children_total nodes (c ∷ all)
      ≡ parents_count nodes c.parent_device_id + children_total nodes all
unfolding children_of
children_total-cons [] c all = refl
children_total-cons (n ∷ nodes) c all = ground (arith, children_total-cons nodes c all)

find-count :
    (nodes : List DeviceNode) (p : ℕ)
    → (one_if (not (is_missing (find nodes p))) ≤ parents_count nodes (some p))
      × (is_missing (find nodes p) ≡ true → parents_count nodes (some p) ≡ 0)
find-count [] p = (omega arith, λ h. refl)
find-count (n ∷ nodes) p =
    let (least, missing) = find-count nodes p in
    (ground (arith, least), λ h. ground (arith, missing, h))

parents_count-none : (nodes : List DeviceNode) → parents_count nodes none ≡ 0
parents_count-none [] = refl
parents_count-none (n ∷ nodes) = omega (arith, parents_count-none nodes)

-- A device stands under one parent, or it is a root.
parents_count-is_missing :
    (nodes : List DeviceNode) (o : Option ℕ)
    → HasDistinctIds nodes
    → parents_count nodes o + one_if (is_missing (parent_row nodes o)) ≡ 1
parents_count-is_missing nodes none d = rw (parents_count-none nodes) refl
parents_count-is_missing nodes (some p) d =
    let (least, missing) = find-count nodes p in
    cases (find nodes p) (parents_count nodes (some p)) (d p) least missing
  where
    cases :
        (o : Option DeviceNode) (n : ℕ)
        → n ≤ 1
        → one_if (not (is_missing o)) ≤ n
        → (is_missing o ≡ true → n ≡ 0)
        → n + one_if (is_missing (with_id p o)) ≡ 1
    cases none n most least missing = omega (arith, missing refl)
    cases (some q) n most least missing = omega (arith, most, least)

roots_children_among :
    (all nodes : List DeviceNode)
    → HasDistinctIds all
    → length (roots_among all nodes) + children_total all nodes ≡ length nodes
unfolding roots_among is_root
roots_children_among all [] d = omega (arith, children_total-nil all)
roots_children_among all (n ∷ nodes) d = ground (
  arith,
  roots_children_among all nodes d,
  children_total-cons all n nodes,
  parents_count-is_missing all n.parent_device_id d,
)

-- If no two rows have one id, the roots and the children of all devices together are as many as the
-- devices: the tree leaves out none and has none twice.
pub roots_among-children_total :
    (nodes : List DeviceNode)
    → HasDistinctIds nodes
    → length (roots_among nodes nodes) + children_total nodes nodes ≡ length nodes
roots_among-children_total nodes d = roots_children_among nodes nodes d
