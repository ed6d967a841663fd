-- ===== src/Topology/Path/Decides.antt =====
-- hasSourceToSinkPath of internal/topology/validate.go ends, and decides whether a walk leads from a
-- source to a sink.
use mathlib.Core.List.{Memᴰ}
use mathlib.Core.List.Memᴰ
use eventr.Common.{
  true, String, List, [], ◌∷◌, suc, length, ◌≡◌, refl, ◌≢◌, inl, inr, ◌↔◌, arith, ◌≤◌, subst, ap,
  sym,
}
use eventr.Common.Text.{contains, string_dec}
use eventr.Topology.Ir.{StageIr, EdgeIr, kind_source, kind_sink}
use eventr.Topology.Graph.{Reach, adjacency, next_of, mem-next_of}
use eventr.Topology.Cycle.{nodes}
use eventr.Topology.Cycle.Ends.{mem-nodes}
use eventr.Topology.Path.{
  Outcome, found, missing, out_of_fuel, ids_of_kind, search_each, has_source_to_sink_path,
  unless_found,
}
use eventr.Topology.Path.Loop.{contains_iff, count_new-le-length, work}
use eventr.Topology.Path.Search.{start, Inv-start, Target, Answers, search_decides}

abbrev OfKind : String → List StageIr → String → Type 0
OfKind kind stages x = (s : StageIr) × Memᴰ s stages × (s.kind ≡ kind) × (s.id ≡ x)

of_kind :
    (kind : String) (stages : List StageIr) (x : String)
    → contains (ids_of_kind kind stages) x ≡ true
    → OfKind kind stages x
unfolding ids_of_kind
of_kind kind [] x h = cc
of_kind kind (st ∷ rest) x h = elim (string_dec st.kind kind) [
  | no other ↦ let (s, l, k, e) = of_kind kind rest x (ground arith) in (s, Memᴰ.tail l, k, e)
  | yes same ↦ elim (string_dec x st.id) [
    | yes e ↦ (st, Memᴰ.head refl, same, sym e)
    | no ne ↦ let (s, l, k, e) = of_kind kind rest x (ground arith) in (s, Memᴰ.tail l, k, e)
  ]
]

listed :
    (kind : String) (stages : List StageIr) {s : StageIr}
    → Memᴰ s stages
    → s.kind ≡ kind
    → contains (ids_of_kind kind stages) s.id ≡ true
unfolding ids_of_kind
listed kind [] l k = absurd (Memᴰ.not-nil l)
listed kind (st ∷ rest) {s} l k = elim (Memᴰ.cases_cons l) [
  | inl e ↦
      let i : s.id ≡ st.id = ap (λ t. t.id) e in
      let j : s.kind ≡ st.kind = ap (λ t. t.kind) e in ground arith
  | inr later ↦ ground (arith, listed kind rest later k)
]

-- The ids of one kind are those of the stages of that kind.
pub contains-ids_of_kind :
    (kind : String) (stages : List StageIr) (x : String)
    → (contains (ids_of_kind kind stages) x ≡ true) ↔ OfKind kind stages x
contains-ids_of_kind kind stages x = (
  of_kind kind stages x,
  λ (s, l, k, e).
      subst (λ y. contains (ids_of_kind kind stages) y ≡ true) e (listed kind stages l k),
)

module _ (es : List EdgeIr) (sinks universe : List String)
    (inside : (x y : String) → contains (next_of es x) y ≡ true → contains universe y ≡ true) where
  abbrev Connects : List String → Type 0
  Connects sources = (a : String) × (contains sources a ≡ true) × Target es sinks a

  abbrev AnswersEach : List String → Outcome → Type 0
  AnswersEach sources found = Connects sources
  AnswersEach sources missing = ¬ Connects sources
  AnswersEach sources out_of_fuel = ⊥

  start-work : (src : String) → work universe (start es sinks src) ≤ suc (length universe)
  unfolding start
  start-work src = omega (arith, count_new-le-length (src ∷ []) universe)

  AnswersEach-cons :
      (src : String) (rest : List String) (o r : Outcome)
      → Answers es sinks src o
      → AnswersEach rest r
      → AnswersEach (src ∷ rest) (unless_found o r)
  AnswersEach-cons src rest found r t h =
      (src, (contains_iff (src ∷ rest) src).1 (Memᴰ.head refl), t)
  AnswersEach-cons src rest missing found n (a, l, t) =
      (a, (contains_iff (src ∷ rest) a).1 (Memᴰ.tail ((contains_iff rest a).0 l)), t)
  AnswersEach-cons src rest missing missing n h = λ (a, l, t).
      elim (Memᴰ.cases_cons ((contains_iff (src ∷ rest) a).0 l)) [
        | inl e ↦ n (subst (Target es sinks) e t)
        | inr later ↦ h (a, (contains_iff rest a).1 later, t)
      ]
  AnswersEach-cons src rest missing out_of_fuel n h = h
  AnswersEach-cons src rest out_of_fuel r t h = t

  search_each_decides :
      (sources : List String)
      → AnswersEach sources (search_each (adjacency es) sinks (suc (length universe)) sources)
  unfolding search_each start
  search_each_decides [] = λ (a, h, t). cc
  search_each_decides (src ∷ rest) =
      AnswersEach-cons src rest _ _
        (search_decides es sinks src universe inside _ _ (Inv-start es sinks src) (start-work src))
        (search_each_decides rest)

-- A walk leads from a stage of kind source to a stage of kind sink.
abbrev pub Connected : List StageIr → List EdgeIr → Type 0
Connected stages es =
    (a b : StageIr) × Memᴰ a stages
    × (a.kind ≡ kind_source)
    × Memᴰ b stages
    × (b.kind ≡ kind_sink)
    × Reach es a.id b.id

-- The search of hasSourceToSinkPath ends, and it returns true exactly if a walk leads from some
-- source to some sink.
pub has_source_to_sink_path_decides :
    (stages : List StageIr) (es : List EdgeIr)
    → (has_source_to_sink_path stages es ≢ out_of_fuel)
      × ((has_source_to_sink_path stages es ≡ found) ↔ Connected stages es)
unfolding has_source_to_sink_path
has_source_to_sink_path_decides stages es =
    decide _ (search_each_decides es sinks universe inside sources) (
      λ (x, l, t).
          let (y, m, r) = t in
          let (a, la, ka, ea) = (contains-ids_of_kind kind_source stages x).0 l in
          let (b, lb, kb, eb) = (contains-ids_of_kind kind_sink stages y).0 m in
          (a, b, la, ka, lb, kb, subst (Reach es a.id) (sym eb) (rw ea r)),
      λ (a, b, la, ka, lb, kb, r). (
        a.id,
        (contains-ids_of_kind kind_source stages a.id).1 (a, la, ka, refl),
        (b.id, (contains-ids_of_kind kind_sink stages b.id).1 (b, lb, kb, refl), r),
      ),
    )
  where
    sources : List String
    sources = ids_of_kind kind_source stages

    sinks : List String
    sinks = ids_of_kind kind_sink stages

    universe : List String
    universe = nodes stages es

    inside : (x y : String) → contains (next_of es x) y ≡ true → contains universe y ≡ true
    inside x y h =
        (contains_iff universe y).1
          (mem-nodes stages es x y ((mem-next_of es x y).0 ((contains_iff (next_of es x) y).0 h)))

    decide :
        (o : Outcome)
        → AnswersEach es sinks universe inside sources o
        → Connects es sinks universe inside sources ↔ Connected stages es
        → (o ≢ out_of_fuel) × ((o ≡ found) ↔ Connected stages es)
    decide found t c = (λ e. cc, (λ _. c.0 t, λ _. refl))
    decide missing n c = (λ e. cc, (λ e. cc, λ w. absurd (n (c.1 w))))
    decide out_of_fuel t c = absurd t
