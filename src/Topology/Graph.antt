-- ===== src/Topology/Graph.antt =====
-- The adjacency map that detectCycle and hasSourceToSinkPath of internal/topology/validate.go build,
-- and the walks of the graph, against which both searches are specified.
use mathlib.Core.List.{Memᴰ}
use mathlib.Core.Logic.{if_pos, if_neg}
use mathlib.Core.List.Memᴰ
use eventr.Common.{String, List, [], ◌∷◌, ◌++◌, ◌≡◌, refl, ite, arith, sym, ◌⊎◌, inl, inr, ◌↔◌}
use eventr.Common.Text.{string_dec}
use eventr.Common.Dict.{Dict, lookup, insert, get_or, lookup-insert}
use eventr.Topology.Ir.{EdgeIr}

-- adj[e.From] = append(adj[e.From], e.To)
unfoldable pub add_edge : Dict (List String) → EdgeIr → Dict (List String)
add_edge adj e = insert e.from (get_or e.from [] adj ++ e.to ∷ []) adj

unfoldable pub adjacency_from : Dict (List String) → List EdgeIr → Dict (List String)
adjacency_from adj [] = adj
adjacency_from adj (e ∷ es) = adjacency_from (add_edge adj e) es

unfoldable pub adjacency : List EdgeIr → Dict (List String)
unfolding adjacency_from
adjacency es = adjacency_from [] es

-- adj[node], for the map that is built from the edges
abbrev pub next_of : List EdgeIr → String → List String
next_of es node = get_or node [] (adjacency es)

-- There is an edge from a to b.
pub data Edge (es : List EdgeIr) (a b : String) : Type 0 where
  edge : (e : EdgeIr) → Memᴰ e es → e.from ≡ a → e.to ≡ b → Edge es a b

-- Walks of one edge or more.
pub data Walk (es : List EdgeIr) (a : String) : String → Type 0 where
  one : {b : String} → Edge es a b → Walk es a b
  more : {b c : String} → Walk es a b → Edge es b c → Walk es a c

-- Walks of any length.
pub data Reach (es : List EdgeIr) (a : String) : String → Type 0 where
  here : Reach es a a
  step : {b c : String} → Reach es a b → Edge es b c → Reach es a c

get_or-add_edge :
    (adj : Dict (List String)) (e : EdgeIr) (node : String)
    → get_or node [] (add_edge adj e)
      ≡ ite (string_dec node e.from) (get_or e.from [] adj ++ e.to ∷ []) (get_or node [] adj)
unfolding add_edge
get_or-add_edge adj e node =
    ground (arith, lookup-insert node e.from (get_or e.from [] adj ++ e.to ∷ []) adj)

Edge-tail : {e : EdgeIr} {es : List EdgeIr} {a b : String} → Edge es a b → Edge (e ∷ es) a b
Edge-tail (edge d m p q) = edge d (Memᴰ.tail m) p q

-- The targets that `add_edge` lists: those before, and the new edge's.
mem-add_edge :
    (adj : Dict (List String)) (e : EdgeIr) (a b : String)
    → Memᴰ b (get_or a [] (add_edge adj e))
    → Memᴰ b (get_or a [] adj) ⊎ (e.from ≡ a) × (e.to ≡ b)
mem-add_edge adj e a b m = elim (string_dec a e.from) [
  | yes p ↦ elim (Memᴰ.append_cases _ (rw (get_or-add_edge adj e a, if_pos _ p) at m)) [
    | inl old ↦ inl (rw p old)
    | inr new ↦ inr (sym p, sym (Memᴰ.eq_of_singleton new))
  ]
  | no p ↦ inl (rw (get_or-add_edge adj e a, if_neg _ p) at m)
]

mem-add_edge_old :
    (adj : Dict (List String)) (e : EdgeIr) (a b : String)
    → Memᴰ b (get_or a [] adj)
    → Memᴰ b (get_or a [] (add_edge adj e))
mem-add_edge_old adj e a b m = elim (string_dec a e.from) [
  | yes p ↦ rw (get_or-add_edge adj e a, if_pos _ p) (Memᴰ.append_left _ (rw p at m))
  | no p ↦ rw (get_or-add_edge adj e a, if_neg _ p) m
]

mem-add_edge_new :
    (adj : Dict (List String)) (e : EdgeIr) → Memᴰ e.to (get_or e.from [] (add_edge adj e))
mem-add_edge_new adj e =
    rw (get_or-add_edge adj e e.from, if_pos _ refl) (Memᴰ.append_right _ (Memᴰ.head refl))

mem-adjacency_from :
    (adj : Dict (List String)) (es : List EdgeIr) (a b : String)
    → Memᴰ b (get_or a [] (adjacency_from adj es))
    → Memᴰ b (get_or a [] adj) ⊎ Edge es a b
unfolding adjacency_from
mem-adjacency_from adj [] a b m = inl m
mem-adjacency_from adj (e ∷ es) a b m = elim (mem-adjacency_from (add_edge adj e) es a b m) [
  | inl old ↦ elim (mem-add_edge adj e a b old) [
    | inl older ↦ inl older
    | inr new ↦ inr (edge e (Memᴰ.head refl) new.0 new.1)
  ]
  | inr later ↦ inr (Edge-tail later)
]

mem-adjacency_from_old :
    (adj : Dict (List String)) (es : List EdgeIr) (a b : String)
    → Memᴰ b (get_or a [] adj)
    → Memᴰ b (get_or a [] (adjacency_from adj es))
unfolding adjacency_from
mem-adjacency_from_old adj [] a b m = m
mem-adjacency_from_old adj (e ∷ es) a b m =
    mem-adjacency_from_old (add_edge adj e) es a b (mem-add_edge_old adj e a b m)

mem-adjacency_from_new :
    (adj : Dict (List String)) (es : List EdgeIr) {e : EdgeIr}
    → Memᴰ e es
    → Memᴰ e.to (get_or e.from [] (adjacency_from adj es))
unfolding adjacency_from
mem-adjacency_from_new adj [] m = absurd (Memᴰ.not-nil m)
mem-adjacency_from_new adj (d ∷ es) {e} m = elim (Memᴰ.cases_cons m) [
  | inl same ↦
      rw same (mem-adjacency_from_old (add_edge adj d) es d.from d.to (mem-add_edge_new adj d))
  | inr later ↦ mem-adjacency_from_new (add_edge adj d) es later
]

-- The map lists exactly the targets of the edges.
pub mem-next_of : (es : List EdgeIr) (a b : String) → Memᴰ b (next_of es a) ↔ Edge es a b
unfolding adjacency lookup
mem-next_of es a b = (
  λ m. elim (mem-adjacency_from [] es a b m) [
    | inl none_yet ↦ absurd (Memᴰ.not-nil none_yet)
    | inr found ↦ found
  ],
  elim [ edge e m p q ↦ rw (← p, ← q) (mem-adjacency_from_new [] es m) ],
)
