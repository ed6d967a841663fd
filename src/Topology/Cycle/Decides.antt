-- ===== src/Topology/Cycle/Decides.antt =====
-- detectCycle of internal/topology/validate.go decides whether the graph has a cycle.
use mathlib.Core.List.{Memᴰ}
use mathlib.Core.List.Memᴰ
use mathlib.Core.Logic.{if_neg}
use mathlib.Core.WellFounded.{Acc}
use eventr.Common.{
  String, List, [], ◌∷◌, ℕ, zero, suc, ◌≡◌, ◌≢◌, refl, inl, inr, ◌↔◌, arith, eqb, Bool-cases, subst,
  ◌∙◌,
}
use eventr.Common.Text.{string_dec}
use eventr.Common.Dict.{Dict, insert, lookup}
use eventr.Topology.Ir.{StageIr, EdgeIr}
use eventr.Topology.Graph.{
  Edge, edge, Walk, one, more, Reach, here, step, adjacency, next_of, mem-next_of,
}
use eventr.Topology.Cycle.{
  Visit, clear, cycle, out_of_fuel, mark, visit_all, finish, visit, detect_cycle,
}
use eventr.Topology.Cycle.Search.{After, mark-insert, Visit-cases, visit-Post, visit_all-Post}
use eventr.Topology.Cycle.Ends.{detect_cycle-ne-out_of_fuel}

module _ (es : List EdgeIr) where
  Walk-first : {a c : String} → Walk es a c → (b : String) × Edge es a b × Reach es b c
  Walk-first {c} (one e) = (c, e, here)
  Walk-first (more w e) = let (b, first, rest) = Walk-first w in (b, first, step rest e)

  Walk-of_Reach : {a b c : String} → Reach es a b → Edge es b c → Walk es a c
  Walk-of_Reach here e = one e
  Walk-of_Reach (step r d) e = more (Walk-of_Reach r d) e

  -- A node from which all walks are finite lies on no cycle.
  no_cycle_of_Acc : (x : String) → Acc (After es) x → ¬ Walk es x x
  no_cycle_of_Acc x (Acc.intro _ below) w =
      let (b, e, r) = Walk-first w in no_cycle_of_Acc b (below b e) (Walk-of_Reach r e)

  -- All that stands on the stack leads to x.
  abbrev Leads : Dict ℕ → String → Type 0
  Leads m x = (g : String) → mark m g ≡ 1 → Walk es g x

  abbrev Finds : (String → Dict ℕ → Visit) → Type 0
  Finds v = (x : String) (m : Dict ℕ) (c : String) → v x m ≡ cycle c → Leads m x → Walk es c c

  visit_all-Finds :
      (fuel : ℕ)
      → Finds (visit (adjacency es) fuel)
      → (bs : List String) (m : Dict ℕ) (c : String)
      → visit_all (visit (adjacency es) fuel) bs m ≡ cycle c
      → ((b : String) → Memᴰ b bs → Leads m b)
      → Walk es c c
  unfolding visit_all
  visit_all-Finds fuel finds [] m c h leads = cc
  visit_all-Finds fuel finds (b ∷ bs) m c h leads =
      elim (Visit-cases (visit (adjacency es) fuel b m)) [
        | inl (m₁, e) ↦
            let p = (visit-Post es fuel b m m₁ e).0 in
            visit_all-Finds fuel finds bs m₁ c (rw (e, visit_all) at h)
              (λ x l g on. leads x (Memᴰ.tail l) g (p.stack g on))
        | inr (inl (d, e)) ↦
            let same : d ≡ c = ground arith in
            finds b m c (subst (λ y. visit (adjacency es) fuel b m ≡ cycle y) same e)
              (leads b (Memᴰ.head refl))
        | inr (inr e) ↦ absurd (ground arith)
      ]

  finish-eq-cycle : (x : String) (r : Visit) (c : String) → finish x r ≡ cycle c → r ≡ cycle c
  unfolding finish
  finish-eq-cycle x (clear m) c h = cc
  finish-eq-cycle x (cycle d) c h = h
  finish-eq-cycle x out_of_fuel c h = cc

  visit-Finds : (fuel : ℕ) → Finds (visit (adjacency es) fuel)
  unfolding visit
  visit-Finds zero x m c h leads = cc
  visit-Finds (suc fuel) x m c h leads = elim (Bool-cases (eqb (mark m x) 1)) [
    | inl on ↦
        let same : x ≡ c = ground arith in subst (λ y. Walk es y y) same (leads x (ground arith))
    | inr off ↦ elim (Bool-cases (eqb (mark m x) 2)) [
      | inl done ↦ absurd (ground arith)
      | inr new ↦
          visit_all-Finds fuel (visit-Finds fuel) (next_of es x) (insert x 1 m) c
            (finish-eq-cycle x _ c (rw (off, new) at h)) (longer x m leads)
    ]
  ]
    where
      longer :
          (x : String) (m : Dict ℕ)
          → Leads m x
          → (b : String) → Memᴰ b (next_of es x)
          → Leads (insert x 1 m) b
      longer x m leads b l g on =
          let e = (mem-next_of es x b).0 l in
          elim (string_dec g x) [
            | yes same ↦ rw same (one e)
            | no other ↦ more (leads g (rw (mark-insert, if_neg _ other) at on)) e
          ]

  -- Where detectCycle reports a cycle at a node, that node lies on a cycle.
  pub detect_cycle_sound :
      (stages : List StageIr) (c : String) → detect_cycle stages es ≡ cycle c → Walk es c c
  unfolding detect_cycle lookup
  detect_cycle_sound stages c h =
      visit_all-Finds _ (visit-Finds _) _ [] c h (λ b l g on. absurd (omega arith))

  -- No walk from a stage comes back to its start.
  pub detect_cycle_complete :
      (stages : List StageIr) (m : Dict ℕ)
      → detect_cycle stages es ≡ clear m
      → (s : StageIr) → Memᴰ s stages
      → Acc (After es) s.id
  unfolding detect_cycle lookup
  detect_cycle_complete stages m h s l =
      let (p, all) = visit_all-Post es _ (visit-Post es _) _ [] m h in
      p.settled (λ x e. absurd (omega arith)) s.id (all s.id (Memᴰ.map (λ t. t.id) l))

-- Where each edge starts at a stage, the recursion of detectCycle ends, and it returns nil exactly
-- if no walk of one edge or more leads from a node back to that node.
pub detect_cycle_decides :
    (stages : List StageIr) (es : List EdgeIr)
    → ((e : EdgeIr) → Memᴰ e es → (s : StageIr) × Memᴰ s stages × (s.id ≡ e.from))
    → (detect_cycle stages es ≢ out_of_fuel)
      × (((m : Dict ℕ) × (detect_cycle stages es ≡ clear m)) ↔ ((x : String) → ¬ Walk es x x))
detect_cycle_decides stages es starts = (detect_cycle-ne-out_of_fuel stages es, (sound, complete))
  where
    sound : (m : Dict ℕ) × (detect_cycle stages es ≡ clear m) → (x : String) → ¬ Walk es x x
    sound (m, h) x w =
        let (b, first, r) = Walk-first es w in
        elim first [
          | edge e l p q ↦
              let (s, ls, same) = starts e l in
              no_cycle_of_Acc es x
                (subst (Acc (After es)) (same ∙ p) (detect_cycle_complete es stages m h s ls)) w
        ]

    complete : ((x : String) → ¬ Walk es x x) → (m : Dict ℕ) × (detect_cycle stages es ≡ clear m)
    complete none_at = elim (Visit-cases (detect_cycle stages es)) [
      | inl found ↦ found
      | inr (inl (c, e)) ↦ absurd (none_at c (detect_cycle_sound es stages c e))
      | inr (inr e) ↦ absurd (detect_cycle-ne-out_of_fuel stages es e)
    ]
