-- ===== src/Topology/Cycle/Ends.antt =====
-- detectCycle of internal/topology/validate.go ends: each nested visit takes one unseen node, so the
-- recursion is never deeper than the number of nodes.
use mathlib.Core.List.{Memᴰ}
use mathlib.Core.List.Memᴰ
use eventr.Common.{
  String, Bool, true, false, List, [], ◌∷◌, map, ℕ, zero, suc, ◌≡◌, refl, ◌≢◌, inl, inr, arith, eqb,
  ◌<◌, ◌≤◌, if◌then◌else◌, Bool-cases, subst, length,
}
use eventr.Common.Dict.{Dict, insert}
use eventr.Topology.Ir.{StageIr, EdgeIr}
use eventr.Topology.Graph.{Edge, edge, adjacency, next_of, mem-next_of}
use eventr.Topology.Cycle.{out_of_fuel, mark, visit_all, finish, visit, nodes, detect_cycle}
use eventr.Topology.Cycle.Search.{mark-insert, visit-Post, Visit-cases}

abbrev unseen : Dict ℕ → String → Bool
unseen m x = if eqb (mark m x) 1 then false else if eqb (mark m x) 2 then false else true

abbrev count_unseen : Dict ℕ → List String → ℕ
count_unseen m [] = 0
count_unseen m (x ∷ xs) = if unseen m x then suc (count_unseen m xs) else count_unseen m xs

count_unseen-le :
    (m m' : Dict ℕ) (xs : List String)
    → ((x : String) → unseen m' x ≡ true → unseen m x ≡ true)
    → count_unseen m' xs ≤ count_unseen m xs
count_unseen-le m m' [] h = omega arith
count_unseen-le m m' (x ∷ xs) h = ground (arith, h x, count_unseen-le m m' xs h)

count_unseen-le-length : (m : Dict ℕ) (xs : List String) → count_unseen m xs ≤ length xs
count_unseen-le-length m [] = omega arith
count_unseen-le-length m (x ∷ xs) = ground (arith, count_unseen-le-length m xs)

unseen-insert : (m : Dict ℕ) (k x : String) → unseen (insert k 1 m) x ≡ true → unseen m x ≡ true
unseen-insert m k x h = ground (arith, mark-insert m k 1 x)

-- To put an unseen node on the stack leaves fewer unseen nodes.
count_unseen-insert :
    (m : Dict ℕ) (k : String) (xs : List String)
    → Memᴰ k xs
    → unseen m k ≡ true
    → count_unseen (insert k 1 m) xs < count_unseen m xs
count_unseen-insert m k [] l h = absurd (Memᴰ.not-nil l)
count_unseen-insert m k (x ∷ xs) l h = elim (Memᴰ.cases_cons l) [
  | inl same ↦
      let rest = count_unseen-le m (insert k 1 m) xs (unseen-insert m k) in
      ground (arith, mark-insert m k 1 x)
  | inr later ↦ ground (arith, unseen-insert m k x, count_unseen-insert m k xs later h)
]

module _ (es : List EdgeIr) (universe : List String)
    (closed : (a b : String) → Edge es a b → Memᴰ b universe) where
  visit_all-ends :
      (fuel : ℕ)
      → ((node : String) (m : Dict ℕ)
          → Memᴰ node universe
          → count_unseen m universe < fuel
          → visit (adjacency es) fuel node m ≢ out_of_fuel)
      → (bs : List String) (m : Dict ℕ) → ((b : String) → Memᴰ b bs → Memᴰ b universe)
      → count_unseen m universe < fuel
      → visit_all (visit (adjacency es) fuel) bs m ≢ out_of_fuel
  unfolding visit_all
  visit_all-ends fuel ends [] m inside h = λ e. cc
  visit_all-ends fuel ends (b ∷ bs) m inside h =
      elim (Visit-cases (visit (adjacency es) fuel b m)) [
        | inl (m₁, e) ↦
            let p = (visit-Post es fuel b m m₁ e).0 in
            let fewer = count_unseen-le m m₁ universe (λ x u. ground (arith, p.seen x, p.kept x)) in
            rw (e, visit_all)
              (visit_all-ends fuel ends bs m₁ (λ x l. inside x (Memᴰ.tail l)) (omega arith))
        | inr (inl (c, e)) ↦ rw (e, visit_all) (λ f. cc)
        | inr (inr e) ↦ absurd (ends b m (inside b (Memᴰ.head refl)) h e)
      ]

  visit-ends :
      (fuel : ℕ) (node : String) (m : Dict ℕ)
      → Memᴰ node universe
      → count_unseen m universe < fuel
      → visit (adjacency es) fuel node m ≢ out_of_fuel
  unfolding visit finish
  visit-ends zero node m l h = absurd (omega arith)
  visit-ends (suc fuel) node m l h = elim (Bool-cases (eqb (mark m node) 1)) [
    | inl on ↦ rw on (λ e. cc)
    | inr off ↦ elim (Bool-cases (eqb (mark m node) 2)) [
      | inl done ↦ rw (off, done) (λ e. cc)
      | inr new ↦
          let fewer = count_unseen-insert m node universe l (rw (off, new)) in
          let loop =
            visit_all-ends fuel (visit-ends fuel) (next_of es node) (insert node 1 m)
              (λ b n. closed node b ((mem-next_of es node b).0 n)) (omega arith) in
          rw (off, new) (ground arith)
    ]
  ]

pub mem-nodes :
    (stages : List StageIr) (es : List EdgeIr) (a b : String)
    → Edge es a b
    → Memᴰ b (nodes stages es)
mem-nodes stages es a b (edge e l p q) =
    Memᴰ.append_right _ (subst (λ x. Memᴰ x (map (λ d. d.to) es)) q (Memᴰ.map (λ d. d.to) l))

-- The fuel that detectCycle is given is enough.
pub detect_cycle-ne-out_of_fuel :
    (stages : List StageIr) (es : List EdgeIr) → detect_cycle stages es ≢ out_of_fuel
unfolding detect_cycle
detect_cycle-ne-out_of_fuel stages es =
    let universe = nodes stages es in
    let closed = mem-nodes stages es in
    visit_all-ends es universe closed (suc (length universe))
      (visit-ends es universe closed (suc (length universe))) (map (λ s. s.id) stages) []
      (λ b l. Memᴰ.append_left _ l) (omega (arith, count_unseen-le-length [] universe))
