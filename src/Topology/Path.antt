-- ===== src/Topology/Path.antt =====
-- hasSourceToSinkPath of internal/topology/validate.go: a breadth-first search from each source. A Go
-- map that is only a set is a list; the `for len(queue) > 0` loop takes fuel, and `Path/Decides`
-- proves that the fuel suffices.
pub mod Loop
pub mod Search
pub mod Decides
use eventr.Common.{
  Bool, true, false, String, List, [], ◌∷◌, ◌++◌, ℕ, zero, suc, if◌then◌else◌, length,
}
use eventr.Common.Text.{contains, ◌==◌}
use eventr.Common.Dict.{Dict, get_or}
use eventr.Topology.Ir.{StageIr, EdgeIr, kind_source, kind_sink}
use eventr.Topology.Graph.{adjacency}
use eventr.Topology.Cycle.{nodes}

pub data Outcome : Type 0 where
  found missing out_of_fuel : Outcome

-- The ids of the stages of one kind: `sources[st.ID] = true`, `sinks[st.ID] = true`.
unfoldable pub ids_of_kind : String → List StageIr → List String
ids_of_kind kind [] = []
ids_of_kind kind (st ∷ rest) =
    let more = ids_of_kind kind rest in if st.kind == kind then st.id ∷ more else more

-- `seen` and `queue`
pub record Frontier : Type 0 where
  pub seen : List String
  pub queue : List String

-- The body of `for _, next := range adj[cur]`.
unfoldable pub offer : String → Frontier → Frontier
offer next f =
    if contains f.seen next
    then f
    else record { seen = next ∷ f.seen; queue = f.queue ++ next ∷ [] }

unfoldable pub offer_all : List String → Frontier → Frontier
offer_all [] f = f
offer_all (next ∷ rest) f = offer_all rest (offer next f)

-- One round, after `cur` left the head of the queue.
unfoldable pub expand : Dict (List String) → String → List String → Frontier → Frontier
expand adj cur rest f = offer_all (get_or cur [] adj) (record { seen = f.seen; queue = rest })

-- `return true` where a sink was met, else the next source.
abbrev pub unless_found : Outcome → Outcome → Outcome
unless_found found rest = found
unless_found missing rest = rest
unless_found out_of_fuel rest = out_of_fuel

module _ (adj : Dict (List String)) (sinks : List String) where
  unfoldable pub search : ℕ → Frontier → Outcome
  search zero f = elim f.queue [ [] ↦ missing | _ ∷ _ ↦ out_of_fuel ]
  search (suc fuel) f = elim f.queue [
    | [] ↦ missing
    | cur ∷ rest ↦ elim (contains sinks cur) [
      | true ↦ found
      | false ↦ search fuel (expand adj cur rest f)
    ]
  ]

  -- `for src := range sources`
  unfoldable pub search_each : ℕ → List String → Outcome
  search_each fuel [] = missing
  search_each fuel (src ∷ rest) =
      unless_found (search fuel (record { seen = src ∷ []; queue = src ∷ [] }))
        (search_each fuel rest)

unfoldable pub has_source_to_sink_path : List StageIr → List EdgeIr → Outcome
has_source_to_sink_path stages edges =
    search_each (adjacency edges) (ids_of_kind kind_sink stages) (suc (length (nodes stages edges)))
      (ids_of_kind kind_source stages)
