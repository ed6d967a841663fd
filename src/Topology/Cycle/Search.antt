-- ===== src/Topology/Cycle/Search.antt =====
-- What a visit of detectCycle (internal/topology/validate.go) leaves in its marks.
use mathlib.Core.List.{Memᴰ}
use mathlib.Core.List.Memᴰ
use mathlib.Core.Logic.{if_pos, if_neg}
use mathlib.Core.WellFounded.{Acc}
use eventr.Common.{
  String, List, [], ◌∷◌, ℕ, zero, suc, ◌≡◌, refl, ◌≢◌, ite, ◌⊎◌, inl, inr, arith, eqb, Bool-cases,
  subst,
}
use eventr.Common.Text.{string_dec}
use eventr.Common.Dict.{Dict, get_or, insert, lookup-insert}
use eventr.Topology.Ir.{EdgeIr}
use eventr.Topology.Graph.{Edge, adjacency, next_of, mem-next_of}
use eventr.Topology.Cycle.{Visit, clear, cycle, out_of_fuel, mark, visit_all, finish, visit}

pub mark-insert :
    (m : Dict ℕ) (k : String) (v : ℕ) (x : String)
    → mark (insert k v m) x ≡ ite (string_dec x k) v (mark m x)
mark-insert m k v x = ground (arith, lookup-insert x k v m)

pub Visit-cases :
    (r : Visit)
    → ((m : Dict ℕ) × (r ≡ clear m)) ⊎ ((c : String) × (r ≡ cycle c)) ⊎ (r ≡ out_of_fuel)
Visit-cases (clear m) = inl (m, refl)
Visit-cases (cycle c) = inr (inl (c, refl))
Visit-cases out_of_fuel = inr (inr refl)

-- A loop that is clear went on from a clear visit.
pub visit_all-eq-clear :
    (v : String → Dict ℕ → Visit) (b : String) (bs : List String) (m m' : Dict ℕ)
    → visit_all v (b ∷ bs) m ≡ clear m'
    → (m₁ : Dict ℕ) × (v b m ≡ clear m₁) × (visit_all v bs m₁ ≡ clear m')
unfolding visit_all
visit_all-eq-clear v b bs m m' h = elim (Visit-cases (v b m)) [
  | inl (m₁, e) ↦ (m₁, e, rw (e, visit_all) at h)
  | inr (inl (c, e)) ↦ absurd (ground arith)
  | inr (inr e) ↦ absurd (ground arith)
]

finish-eq-clear :
    (node : String) (r : Visit) (m' : Dict ℕ)
    → finish node r ≡ clear m'
    → (m₁ : Dict ℕ) × (r ≡ clear m₁) × (m' ≡ insert node 2 m₁)
unfolding finish
finish-eq-clear node (clear m₁) m' h = (m₁, refl, cc)
finish-eq-clear node (cycle c) m' h = cc
finish-eq-clear node out_of_fuel m' h = cc

-- A visit that is clear met a finished node, or finished one that was neither on the stack nor done.
pub visit-eq-clear :
    (adj : Dict (List String)) (fuel : ℕ) (node : String) (m m' : Dict ℕ)
    → visit adj (suc fuel) node m ≡ clear m'
    → (m ≡ m') × (mark m node ≡ 2)
      ⊎ (m₁ : Dict ℕ) × (mark m node ≢ 1)
        × (mark m node ≢ 2)
        × (visit_all (visit adj fuel) (get_or node [] adj) (insert node 1 m) ≡ clear m₁)
        × (m' ≡ insert node 2 m₁)
unfolding visit
visit-eq-clear adj fuel node m m' h = elim (Bool-cases (eqb (mark m node) 1)) [
  | inl on ↦ absurd (ground arith)
  | inr off ↦ elim (Bool-cases (eqb (mark m node) 2)) [
    | inl done ↦ inl (ground arith, ground arith)
    | inr new ↦
        let (m₁, e, f) = finish-eq-clear node _ m' (rw (off, new) at h) in
        inr (m₁, ground arith, ground arith, e, f)
  ]
]

module _ (es : List EdgeIr) where
  -- b comes right after a.
  abbrev pub After : String → String → Type 0
  After b a = Edge es a b

  -- Every finished node starts finite walks only.
  abbrev pub Settled : Dict ℕ → Type 0
  Settled m = (x : String) → mark m x ≡ 2 → Acc After x

  -- What a visit that found nothing changes: finished nodes stay finished, no node is left on the
  -- stack that was not there, and no node becomes unseen.
  pub record Post (m m' : Dict ℕ) : Type 0 where
    pub settled : Settled m → Settled m'
    pub kept : (x : String) → mark m x ≡ 2 → mark m' x ≡ 2
    pub stack : (x : String) → mark m' x ≡ 1 → mark m x ≡ 1
    pub seen : (x : String) → mark m x ≡ 1 → (mark m' x ≡ 1) ⊎ (mark m' x ≡ 2)

  Post-refl : (m : Dict ℕ) → Post m m
  Post-refl m = record { settled = λ s. s; kept = λ x h. h; stack = λ x h. h; seen = λ x h. inl h }

  Post-trans : {a b c : Dict ℕ} → Post a b → Post b c → Post a c
  Post-trans p q = record {
    settled = λ s. q.settled (p.settled s);
    kept = λ x h. q.kept x (p.kept x h);
    stack = λ x h. p.stack x (q.stack x h);
    seen = λ x h. elim (p.seen x h) [ inl on ↦ q.seen x on | inr off ↦ inr (q.kept x off) ];
  }

  abbrev pub Visits : (String → Dict ℕ → Visit) → Type 0
  Visits v = (node : String) (m m' : Dict ℕ) → v node m ≡ clear m' → Post m m' × (mark m' node ≡ 2)

  pub visit_all-Post :
      (v : String → Dict ℕ → Visit)
      → Visits v
      → (bs : List String) (m m' : Dict ℕ) → visit_all v bs m ≡ clear m'
      → Post m m' × ((b : String) → Memᴰ b bs → mark m' b ≡ 2)
  unfolding visit_all
  visit_all-Post v hv [] m m' h =
      let e : m ≡ m' = cc in (subst (Post m) e (Post-refl m), λ b l. absurd (Memᴰ.not-nil l))
  visit_all-Post v hv (b ∷ bs) m m' h =
      let (m₁, e, f) = visit_all-eq-clear v b bs m m' h in
      let (first, done) = hv b m m₁ e in
      let (rest, all) = visit_all-Post v hv bs m₁ m' f in
      (
        Post-trans first rest,
        λ x l. elim (Memᴰ.cases_cons l) [
          | inl same ↦ rw same (rest.kept b done)
          | inr later ↦ all x later
        ],
      )

  -- The step from the marks before the loop over the targets to those after the node is finished.
  finish-Post :
      (node : String) (m m₁ : Dict ℕ)
      → mark m node ≢ 1
      → Post (insert node 1 m) m₁
      → ((b : String) → Edge es node b → mark m₁ b ≡ 2)
      → Post m (insert node 2 m₁)
  finish-Post node m m₁ off p all = record {
    settled = λ s x h. elim (string_dec x node) [
      | yes e ↦ rw e (Acc.intro node (λ b edge. under s b (all b edge)))
      | no ne ↦ under s x (rw (mark-insert, if_neg _ ne) at h)
    ];
    kept = λ x h. elim (string_dec x node) [
      | yes e ↦ rw (mark-insert, if_pos _ e)
      | no ne ↦ rw (mark-insert, if_neg _ ne) (p.kept x (rw (mark-insert, if_neg _ ne) h))
    ];
    stack = λ x h. elim (string_dec x node) [
      | yes e ↦ absurd (ground (arith, mark-insert m₁ node 2 x))
      | no ne ↦ rw (mark-insert, if_neg _ ne) at (p.stack x (rw (mark-insert, if_neg _ ne) at h))
    ];
    seen = λ x h. elim (string_dec x node) [
      | yes e ↦ inr (rw (mark-insert, if_pos _ e))
      | no ne ↦ rw (mark-insert, if_neg _ ne) (p.seen x (rw (mark-insert, if_neg _ ne) h))
    ];
  }
    where
      under : Settled m → (x : String) → mark m₁ x ≡ 2 → Acc After x
      under s = p.settled λ y h. elim (string_dec y node) [
        | yes e ↦ absurd (ground (arith, mark-insert m node 1 y))
        | no ne ↦ s y (rw (mark-insert, if_neg _ ne) at h)
      ]

  pub visit-Post : (fuel : ℕ) → Visits (visit (adjacency es) fuel)
  unfolding visit
  visit-Post zero node m m' h = cc
  visit-Post (suc fuel) node m m' h = elim (visit-eq-clear (adjacency es) fuel node m m' h) [
    | inl (e, done) ↦ (subst (Post m) e (Post-refl m), subst (λ n. mark n node ≡ 2) e done)
    | inr (m₁, off, _, e, f) ↦
        let (p, all) = visit_all-Post _ (visit-Post fuel) (next_of es node) _ m₁ e in
        rw f (
          finish-Post node m m₁ off p (λ b edge. all b ((mem-next_of es node b).1 edge)),
          rw (mark-insert, if_pos _ refl),
        )
  ]
