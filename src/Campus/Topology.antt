-- ===== src/Campus/Topology.antt =====
-- backend/internal/campus/topology.go: which device depends on which. A parent's `nil` is `none`; the
-- rows of the table of devices are the list `nodes`, and a query by id finds the first of them. A
-- walk along the parents goes on as long as the data makes it, so it takes fuel.
pub mod Suppression
pub mod Ancestors
pub mod Forest
mod Examples
use rayavriti_netmonitor.Common.{
  ℕ, zero, suc, ◌+◌, ◌*◌, Bool, true, false, not, ◌&&◌, ◌||◌, List, [], ◌∷◌, ◌++◌, map, Option,
  none, some, String, str_eq, ◌==◌, if◌then◌else◌, length,
}
use rayavriti_netmonitor.Common.Assoc.{lookup, insert, nat_eq}

pub record DeviceNode : Type 0 where
  pub device_id : ℕ
  pub name : String
  pub host : String
  pub status : String
  pub category : String
  pub location_id : Option ℕ
  pub parent_device_id : Option ℕ
  pub dependency_port : String

abbrev pub is_down : DeviceNode → Bool
is_down n = str_eq n.status "down"

-- `WHERE id=$1`
abbrev pub find : List DeviceNode → ℕ → Option DeviceNode
find [] id = none
find (n ∷ nodes) id = let rest = find nodes id in if n.device_id == id then some n else rest

abbrev pub with_id : ℕ → Option DeviceNode → Option (ℕ × DeviceNode)
with_id id none = none
with_id id (some p) = some (id, p)

abbrev pub parent_row : List DeviceNode → Option ℕ → Option (ℕ × DeviceNode)
parent_row nodes none = none
parent_row nodes (some id) = with_id id (find nodes id)

abbrev pub parent_in : List DeviceNode → Option DeviceNode → Option (ℕ × DeviceNode)
parent_in nodes none = none
parent_in nodes (some n) = parent_row nodes n.parent_device_id

-- The parent of a device with its id, where the device, its parent's id and the parent exist.
unfoldable pub parent_of : List DeviceNode → ℕ → Option (ℕ × DeviceNode)
parent_of nodes id = parent_in nodes (find nodes id)

abbrev pub member : ℕ → List ℕ → Bool
member id [] = false
member id (j ∷ ids) = j == id || member id ids

-- An alert is suppressed because of a parent that is down, or it is not.
pub data SuppressionResult : Type 0 where
  parent_down : ℕ → DeviceNode → SuppressionResult
  not_suppressed : SuppressionResult

-- What CheckSuppression does with a parent; `next` goes on to it.
unfoldable pub judge :
    Option (ℕ × DeviceNode) → List ℕ → (ℕ → Option SuppressionResult) → Option SuppressionResult
judge none visited next = some not_suppressed
judge (some (id, p)) visited next =
    if is_down p
    then some (parent_down id p)
    else if member id visited
    then some not_suppressed
    else next id

-- The two queries of a turn of the loop, of which either may fail; `fails` tells it by their number.
-- A failed query ends the loop as a missing row does.
unfoldable pub query_parent : (ℕ → Bool) → List DeviceNode → ℕ → ℕ → Option (ℕ × DeviceNode)
query_parent fails nodes turn id =
    let row = parent_of nodes id in if fails (2 * turn) || fails (2 * turn + 1) then none else row

-- `none` is that the fuel ran out.
unfoldable pub check_from :
    (ℕ → Bool) → List DeviceNode → ℕ → ℕ → ℕ → List ℕ → Option SuppressionResult
unfolding query_parent judge
check_from fails nodes zero turn current visited = none
check_from fails nodes (suc n) turn current visited =
    judge (query_parent fails nodes turn current) visited
      (λ id. check_from fails nodes n (suc turn) id (id ∷ visited))

unfoldable pub check_suppression : (ℕ → Bool) → List DeviceNode → ℕ → Option SuppressionResult
unfolding check_from
check_suppression fails nodes id = check_from fails nodes (suc (length nodes)) 0 id (id ∷ [])

abbrev pub cons_parent : ℕ × DeviceNode → Option (List DeviceNode) → Option (List DeviceNode)
cons_parent p none = none
cons_parent p (some above) = some (p.1 ∷ above)

unfoldable pub climb :
    Option (ℕ × DeviceNode) → (ℕ → Option (List DeviceNode)) → Option (List DeviceNode)
climb none next = some []
climb (some p) next = cons_parent p (next p.0)

-- The walk up of GetDeviceDependencies.
unfoldable pub ancestors_from : List DeviceNode → ℕ → ℕ → Option (List DeviceNode)
unfolding parent_of climb
ancestors_from nodes zero current = none
ancestors_from nodes (suc n) current =
    climb (parent_of nodes current) (λ id. ancestors_from nodes n id)

abbrev pub is_missing {ℓ} : {A : Type ℓ} → Option A → Bool
is_missing none = true
is_missing (some a) = false

-- BuildDependencyTree: a node is a root if it has no parent, or none in the table.
unfoldable pub is_root : List DeviceNode → DeviceNode → Bool
is_root nodes n = is_missing (parent_row nodes n.parent_device_id)

unfoldable pub roots_among : List DeviceNode → List DeviceNode → List DeviceNode
unfolding is_root
roots_among all [] = []
roots_among all (n ∷ nodes) =
    let rest = roots_among all nodes in if is_root all n then n ∷ rest else rest

abbrev pub is_child_of : ℕ → Option ℕ → Bool
is_child_of id none = false
is_child_of id (some p) = p == id

-- The children of a device, in the order of the rows.
unfoldable pub children_of : List DeviceNode → ℕ → List DeviceNode
children_of [] id = []
children_of (n ∷ nodes) id =
    let rest = children_of nodes id in if is_child_of id n.parent_device_id then n ∷ rest else rest
