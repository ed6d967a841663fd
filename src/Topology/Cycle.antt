-- ===== src/Topology/Cycle.antt =====
-- detectCycle of internal/topology/validate.go: a depth-first search with three marks. Go's `visit`
-- recurs on the call stack; here it takes fuel, and `Cycle/Ends` proves that the fuel suffices.
pub mod Search
pub mod Ends
pub mod Decides
use eventr.Common.{String, List, [], ◌∷◌, map, ◌++◌, ℕ, zero, suc, if◌then◌else◌, eqb, length}
use eventr.Common.Dict.{Dict, get_or, insert}
use eventr.Topology.Ir.{StageIr, EdgeIr}
use eventr.Topology.Graph.{adjacency}

-- `clear` is a nil error with the map that `visited` has become.
pub data Visit : Type 0 where
  clear : Dict ℕ → Visit
  cycle : String → Visit
  out_of_fuel : Visit

-- visited[node]: 0 is unseen, 1 is on the stack, 2 is finished
abbrev pub mark : Dict ℕ → String → ℕ
mark visited node = get_or node 0 visited

-- `for _, next := range adj[node]`
unfoldable pub visit_all : (String → Dict ℕ → Visit) → List String → Dict ℕ → Visit
visit_all visit [] visited = clear visited
visit_all visit (next ∷ rest) visited = elim (visit next visited) [
  | clear visited' ↦ visit_all visit rest visited'
  | cycle c ↦ cycle c
  | out_of_fuel ↦ out_of_fuel
]

-- visited[node] = 2, where the loop found nothing
unfoldable pub finish : String → Visit → Visit
finish node (clear visited) = clear (insert node 2 visited)
finish node (cycle c) = cycle c
finish node out_of_fuel = out_of_fuel

unfoldable pub visit : Dict (List String) → ℕ → String → Dict ℕ → Visit
visit adj zero node visited = out_of_fuel
visit adj (suc fuel) node visited =
    if eqb (mark visited node) 1
    then cycle node
    else if eqb (mark visited node) 2
    then clear visited
    else finish node (visit_all (visit adj fuel) (get_or node [] adj) (insert node 1 visited))

-- The nodes that the search can meet.
abbrev pub nodes : List StageIr → List EdgeIr → List String
nodes stages edges = map (λ s. s.id) stages ++ map (λ e. e.to) edges

unfoldable pub detect_cycle : List StageIr → List EdgeIr → Visit
detect_cycle stages edges =
    visit_all (visit (adjacency edges) (suc (length (nodes stages edges)))) (map (λ s. s.id) stages)
      []
