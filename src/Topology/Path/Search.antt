-- ===== src/Topology/Path/Search.antt =====
-- The search from one source in hasSourceToSinkPath (internal/topology/validate.go).
use mathlib.Core.List.{Memᴰ}
use mathlib.Core.List.Memᴰ
use eventr.Common.{
  true, false, String, List, [], ◌∷◌, ℕ, zero, suc, length, ◌≡◌, refl, ◌⊎◌, inl, inr, arith, ◌≤◌,
  Bool-cases, List-cases, subst, ap, sym,
}
use eventr.Common.Text.{contains}
use eventr.Topology.Ir.{EdgeIr}
use eventr.Topology.Graph.{Edge, Reach, here, step, adjacency, next_of, mem-next_of}
use eventr.Topology.Path.{Outcome, found, missing, out_of_fuel, Frontier, expand, search}
use eventr.Topology.Path.Loop.{
  contains_iff, contains-offer_all, mem-offer_all, work, offer_all-work,
}

module _ (es : List EdgeIr) (sinks : List String) (src : String) where
  -- What is seen is reachable, and each node that is seen waits, or is no sink and has only targets
  -- that are seen.
  pub record Inv (f : Frontier) : Type 0 where
    pub source : contains f.seen src ≡ true
    pub queued : (x : String) → Memᴰ x f.queue → contains f.seen x ≡ true
    pub sound : (x : String) → contains f.seen x ≡ true → Reach es src x
    pub closed :
        (x : String)
        → contains f.seen x ≡ true
        → Memᴰ x f.queue
          ⊎ (contains sinks x ≡ false)
            × ((y : String) → contains (next_of es x) y ≡ true → contains f.seen y ≡ true)

  unfoldable pub start : Frontier
  start = record { seen = src ∷ []; queue = src ∷ [] }

  pub Inv-start : Inv start
  unfolding start
  Inv-start = record {
    source = (contains_iff (src ∷ []) src).1 (Memᴰ.head refl);
    queued = λ x l. (contains_iff (src ∷ []) x).1 l;
    sound = λ x h.
        subst (Reach es src) (sym (Memᴰ.eq_of_singleton ((contains_iff (src ∷ []) x).0 h))) here;
    closed = λ x h. inl ((contains_iff (src ∷ []) x).0 h);
  }

  to_edge : (x y : String) → contains (next_of es x) y ≡ true → Edge es x y
  to_edge x y h = (mem-next_of es x y).0 ((contains_iff (next_of es x) y).0 h)

  Inv-expand :
      (f : Frontier) (cur : String) (rest : List String)
      → f.queue ≡ cur ∷ rest
      → contains sinks cur ≡ false
      → Inv f
      → Inv (expand (adjacency es) cur rest f)
  unfolding expand
  Inv-expand f cur rest e not_sink inv =
      let g : Frontier = record { seen = f.seen; queue = rest } in
      let flags = contains-offer_all (next_of es cur) g in
      let waits = mem-offer_all (next_of es cur) g in
      let to_cur = sound cur (queued cur (subst (Memᴰ cur) (sym e) (Memᴰ.head refl))) in
      record {
        source = (flags src).1 (inl source);
        queued = λ x l. elim ((waits x).0 l) [
          | inl old ↦ (flags x).1 (inl (queued x (subst (Memᴰ x) (sym e) (Memᴰ.tail old))))
          | inr new ↦ new.0
        ];
        sound = λ x h. elim ((flags x).0 h) [
          | inl old ↦ sound x old
          | inr new ↦ step to_cur (to_edge cur x new)
        ];
        closed = λ x h. elim (Bool-cases (contains f.seen x)) [
          | inr fresh ↦ inl ((waits x).1 (inr (h, fresh)))
          | inl old ↦ elim (closed x old) [
            | inr (plain, all) ↦ inr (plain, λ y m. (flags y).1 (inl (all y m)))
            | inl waiting ↦ elim (Memᴰ.cases_cons (subst (Memᴰ x) e waiting)) [
              | inr later ↦ inl ((waits x).1 (inl later))
              | inl same ↦ inr (
                subst (λ y. contains sinks y ≡ false) (sym same) not_sink,
                λ y m. (flags y).1 (inr (subst (λ z. contains (next_of es z) y ≡ true) same m)),
              )
            ]
          ]
        ];
      }
    where
      open inv use {source, queued, sound, closed}

  -- With an empty queue all that is reachable was seen.
  all_seen :
      (f : Frontier)
      → Inv f
      → f.queue ≡ []
      → (x : String) → Reach es src x
      → contains f.seen x ≡ true
  all_seen f inv e x here = inv.source
  all_seen f inv e x (step {b = y} r d) = elim (inv.closed y (all_seen f inv e y r)) [
    | inl waiting ↦ absurd (Memᴰ.not-nil (subst (Memᴰ y) e waiting))
    | inr (_, all) ↦ all x ((contains_iff (next_of es y) x).1 ((mem-next_of es y x).1 d))
  ]

  nothing :
      (f : Frontier)
      → Inv f
      → f.queue ≡ []
      → (x : String) → contains sinks x ≡ true
      → Reach es src x
      → ⊥
  nothing f inv e x sink r = elim (inv.closed x (all_seen f inv e x r)) [
    | inl waiting ↦ Memᴰ.not-nil (subst (Memᴰ x) e waiting)
    | inr (plain, _) ↦ ground arith
  ]

  -- A sink that some walk from the source reaches.
  abbrev pub Target : Type 0
  Target = (x : String) × (contains sinks x ≡ true) × Reach es src x

  abbrev pub Answers : Outcome → Type 0
  Answers found = Target
  Answers missing = ¬ Target
  Answers out_of_fuel = ⊥

  pub search_decides :
      (universe : List String)
      → ((x y : String) → contains (next_of es x) y ≡ true → contains universe y ≡ true)
      → (fuel : ℕ) (f : Frontier) → Inv f
      → work universe f ≤ fuel
      → Answers (search (adjacency es) sinks fuel f)
  unfolding search
  search_decides universe inside zero f inv h = elim (List-cases f.queue) [
    | inl e ↦ rw (e, search) (λ (x, sink, r). nothing f inv e x sink r)
    | inr (x, rest, e) ↦ absurd (omega (arith, ap length e))
  ]
  search_decides universe inside (suc fuel) f inv h = elim (List-cases f.queue) [
    | inl e ↦ rw (e, search) (λ (x, sink, r). nothing f inv e x sink r)
    | inr (cur, rest, e) ↦ elim (Bool-cases (contains sinks cur)) [
      | inl sink ↦
          rw (e, search)
            (rw (sink, search)
              (
                cur,
                sink,
                inv.sound cur (inv.queued cur (subst (Memᴰ cur) (sym e) (Memᴰ.head refl))),
              ))
      | inr plain ↦
          let g : Frontier = record { seen = f.seen; queue = rest } in
          let less = offer_all-work universe (next_of es cur) g (inside cur) in
          rw (e, search)
            (rw (plain, search)
              (search_decides universe inside fuel (expand (adjacency es) cur rest f)
                (Inv-expand f cur rest e plain inv) (unfold expand in omega (arith, ap length e))))
    ]
  ]
