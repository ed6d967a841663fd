-- ===== src/Engine/Graph/Total.antt =====
-- What buildRuntimeGraph (internal/engine/graph.go) makes of a topology that Validate accepts.
use mathlib.Core.List.{Memᴰ, append-nil}
use mathlib.Core.List.Memᴰ
use eventr.Common.{
  Bool, true, false, String, List, [], ◌∷◌, ◌++◌, Option, none, some, if◌then◌else◌, ◌≡◌, ◌≢◌, refl,
  sym, ap, ◌∙◌, arith, inl, inr, ◌⊎◌,
}
use eventr.Common.Int.{ℤ, pos}
use eventr.Common.Text.{◌==◌}
use eventr.Common.Dict.{Dict, lookup, insert, get_or}
use eventr.Common.Outcome.{
  panic, Safe, Safe-bind, Safe-panic_if, Safe-any, Safe-weaken, Safe-if, Safe-ok,
}
use eventr.Eql.Compile.{Program, compile_condition}
use eventr.Topology.Ir.{StageIr, EdgeIr, TopologyIr}
use eventr.Topology.Defaults.{default_buffer, buffer_size}
use eventr.Topology.Validate.Stages.{Declared}
use eventr.Topology.Validate.Sound.{IsValid}
use eventr.Engine.Graph.{
  EdgeInbound, Platform, disk_options, RuntimeGraph, GraphError, bad_condition, is_out_of_range,
  inbound_sizes, wrap, opened, compile_predicate, add_stage, add_stages, new_edge_inbound,
  add_condition, add_edge, add_edges, build_runtime_graph,
}
use eventr.Engine.Graph.Growth.{
  edges_from, inbound_of_edge, inbounds_to, inbound_edges, Grows, HasNode, HasNode-put_node,
  inbound_edges_new, Safe-node, if_cons, rewritten, linked, linked-Grows, grow_more, unchanged,
}
use eventr.Engine.Graph.Sizes.{
  IsSized, HasRoom, no_sizes, inbound_sizes_in_range, zero_or_in_range, in_range,
}

declared_one {ℓ} :
    {Program : Type ℓ} (st : StageIr) (id : String) (g : RuntimeGraph Program)
    → Declared (st ∷ []) id ⊎ HasNode id g
    → HasNode id g ⊎ (st.id ≡ id)
declared_one st id g (inr h) = inl h
declared_one st id g (inl (s, l, e)) = elim (Memᴰ.cases_cons l) [
  | inl same ↦ inr (ap (λ t. t.id) (sym same) ∙ e)
  | inr later ↦ absurd (Memᴰ.not-nil later)
]

-- A declared stage is the first one or one after it.
declared_cons :
    (st : StageIr) (rest : List StageIr) (id : String)
    → Declared (st ∷ rest) id
    → Declared (st ∷ []) id ⊎ Declared rest id
declared_cons st rest id (s, l, e) = elim (Memᴰ.cases_cons l) [
  | inl same ↦ inl (s, Memᴰ.head same, e)
  | inr later ↦ inr (s, later, e)
]

opened-Safe {κ} :
    {E : Type κ} (e : EdgeIr) (eb : EdgeInbound) (o : Option E) → Safe (λ x. x ≡ eb) (opened e eb o)
unfolding Safe
opened-Safe e eb none = refl
opened-Safe e eb (some x) = tt

nothing_if {ℓ} : {A : Type ℓ} (b : Bool) → ◌≡◌ {A = List A} [] (if b then [] else [])
nothing_if true = refl
nothing_if false = refl

Safe-wrap {ℓ κ} :
    {A : Type ℓ} {E : Type κ} (f : E → GraphError E) (o : E ⊎ A) → Safe (λ a. Unit) (wrap f o)
unfolding Safe
Safe-wrap f (inr a) = tt
Safe-wrap f (inl e) = tt

-- The graph of a topology: a node for each stage, which reads from the buffers of the edges that
-- reach it, and under each stage the edges that leave it, all in the order of the configuration.
pub record IsGraphOf {ℓ} {Program : Type ℓ} (ir : TopologyIr) (g : RuntimeGraph Program)
    : Type 0 where
  pub nodes : (id : String) → Declared ir.stages id → HasNode id g
  pub outgoing : (id : String) → get_or id [] g.outgoing ≡ edges_from id ir.edges
  pub inbounds : (id : String) → inbound_edges id g ≡ inbounds_to ir.name id ir.edges

module _ {ℓ κ} {Expr : Type ℓ} {E : Type κ} (compile : String → E ⊎ Expr)
    (platform : Platform E) where
  compile_predicate_total : (st : StageIr) → compile_predicate compile platform st ≢ panic
  unfolding compile_predicate
  compile_predicate_total st = ground arith

  -- One stage more has its node, which reads from nothing yet.
  record Staged (stages : List StageIr) (g g' : RuntimeGraph (Program Expr)) : Type 0 where
    nodes : (id : String) → Declared stages id ⊎ HasNode id g → HasNode id g'
    outgoing : g'.outgoing ≡ g.outgoing
    inbounds : (id : String) → inbound_edges id g ≡ [] → inbound_edges id g' ≡ []

  add_stage-Safe :
      HasRoom platform
      → (sizes : Dict ℤ) (st : StageIr) (g : RuntimeGraph (Program Expr))
      → ((id : String) → is_out_of_range platform.max_pointers (get_or id (pos 0) sizes) ≡ false)
      → is_out_of_range platform.max_slices st.workers ≡ false
      → Safe (Staged (st ∷ []) g) (add_stage compile platform sizes st g)
  unfolding add_stage
  add_stage-Safe room sizes st g hs hw =
      Safe-panic_if _ _ _
        (zero_or_in_range platform.max_pointers (pos 64) _ (in_range _ 64 room.pointers) (hs st.id))
        (Safe-panic_if _ _ _
          (zero_or_in_range platform.max_slices (pos 1) st.workers (in_range _ 1 room.slices) hw)
          (Safe-bind (λ o. Unit) (Staged (st ∷ []) g) (compile_predicate compile platform st) _
            (Safe-any _ (compile_predicate_total st))
            (λ o u. Safe-ok _ _ _ (record {
              nodes = λ id h. HasNode-put_node id _ g (declared_one st id g h);
              outgoing = refl;
              inbounds = λ id h. inbound_edges_new id _ g refl h;
            }))))

  add_stages-Safe :
      HasRoom platform
      → (sizes : Dict ℤ) (stages : List StageIr) (g : RuntimeGraph (Program Expr))
      → ((id : String) → is_out_of_range platform.max_pointers (get_or id (pos 0) sizes) ≡ false)
      → ((s : StageIr) → Memᴰ s stages → is_out_of_range platform.max_slices s.workers ≡ false)
      → Safe (Staged stages g) (add_stages compile platform sizes stages g)
  unfolding add_stages
  add_stages-Safe room sizes [] g hs hw = Safe-ok _ (Staged [] g) g (record {
    nodes = λ id h. elim h [ inl (s, l, e) ↦ absurd (Memᴰ.not-nil l) | inr k ↦ k ];
    outgoing = refl;
    inbounds = λ id h. h;
  })
  add_stages-Safe room sizes (st ∷ stages) g hs hw =
      Safe-bind (Staged (st ∷ []) g) (Staged (st ∷ stages) g) _ _
        (add_stage-Safe room sizes st g hs (hw st (Memᴰ.head refl)))
        (λ g₁ one.
          Safe-weaken (Staged stages g₁) (Staged (st ∷ stages) g) _
            (add_stages-Safe room sizes stages g₁ hs (λ s l. hw s (Memᴰ.tail l)))
            (λ g₂ more. record {
              nodes = λ id h. elim h [
                | inr k ↦ more.nodes id (inr (one.nodes id (inr k)))
                | inl d ↦ elim (declared_cons st stages id d) [
                  | inl k ↦ more.nodes id (inr (one.nodes id (inl k)))
                  | inr k ↦ more.nodes id (inl k)
                ]
              ];
              outgoing = more.outgoing ∙ one.outgoing;
              inbounds = λ id h. more.inbounds id (one.inbounds id h);
            }))

  add_condition-Safe :
      (e : EdgeIr) (g : RuntimeGraph (Program Expr))
      → HasNode e.from g
      → Safe (λ g'. Grows g g' (λ id. []) (λ id. [])) (add_condition compile platform e g)
  unfolding add_condition
  add_condition-Safe e g h = Safe-if _ (e.condition == "") _ _ (Safe-ok _ _ _ (unchanged g)) (
      Safe-bind (λ p. Unit) _ _ _
        (Safe-wrap (bad_condition e) (compile_condition compile e.condition))
        (λ p u. Safe-node _ e.from g _ h (λ n k i.
          let n' = record n { conditions = insert e.to p n.conditions } in
          Safe-ok _ _ _ (
            rewritten e.from g n n' [] (λ j. []) (λ j. nothing_if (e.from == j)) k i refl
              (sym (append-nil _))))))

  new_edge_inbound-Safe :
      (name : String) (e : EdgeIr)
      → is_out_of_range platform.max_pointers (buffer_size e) ≡ false
      → Safe (λ eb. eb ≡ inbound_of_edge name e) (new_edge_inbound compile platform name e)
  unfolding new_edge_inbound inbound_of_edge buffer_size
  new_edge_inbound-Safe name e h = Safe-panic_if _ _ _ h (
      Safe-if _ ((default_buffer e.buffer).type == "disk") _ _
        (opened-Safe e _ (platform.open_disk (disk_options platform (inbound_of_edge name e))))
        (Safe-if _ ((default_buffer e.buffer).type == "overflow") _ _
          (opened-Safe e _ (platform.open_disk (disk_options platform (inbound_of_edge name e))))
          (Safe-ok _ _ _ refl)))

  add_edge-Safe :
      (name : String) (e : EdgeIr) (g : RuntimeGraph (Program Expr))
      → HasNode e.from g
      → HasNode e.to g
      → is_out_of_range platform.max_pointers (buffer_size e) ≡ false
      → Safe
          (λ g'. Grows g g' (λ id. edges_from id (e ∷ [])) (λ id. inbounds_to name id (e ∷ [])))
          (add_edge compile platform name e g)
  unfolding add_edge
  add_edge-Safe name e g hf ht hs = Safe-bind _ _ _ _ (new_edge_inbound-Safe name e hs) (λ eb same.
      Safe-node _ e.to g _ ht (λ n k i.
        Safe-weaken (λ g₂. Grows (linked e g n eb) g₂ (λ id. []) (λ id. [])) _ _
          (add_condition-Safe e (linked e g n eb)
            ((linked-Grows name e g n eb k i same).nodes e.from hf))
          (λ g₂ more.
            grow_more g (linked e g n eb) g₂ _ _ _ _ _ _ (linked-Grows name e g n eb k i same) more
              (λ id. sym (append-nil _)) (λ id. sym (append-nil _)))))

  add_edges-Safe :
      (name : String) (edges : List EdgeIr) (g : RuntimeGraph (Program Expr))
      → ((e : EdgeIr)
          → Memᴰ e edges
          → HasNode e.from g
            × HasNode e.to g
            × (is_out_of_range platform.max_pointers (buffer_size e) ≡ false))
      → Safe
          (λ g'. Grows g g' (λ id. edges_from id edges) (λ id. inbounds_to name id edges))
          (add_edges compile platform name edges g)
  unfolding add_edges edges_from inbounds_to
  add_edges-Safe name [] g h = Safe-ok _ _ _ (unchanged g)
  add_edges-Safe name (e ∷ edges) g h =
      let (hf, ht, hs) = h e (Memᴰ.head refl) in
      Safe-bind _ _ _ _ (add_edge-Safe name e g hf ht hs) (λ g₁ one.
        Safe-weaken _ _ _
          (add_edges-Safe name edges g₁ (λ f l.
            let (kf, kt, ks) = h f (Memᴰ.tail l) in (one.nodes f.from kf, one.nodes f.to kt, ks)))
          (λ g₂ more.
            grow_more g g₁ g₂ _ _ _ _ _ _ one more
              (λ id. if_cons (e.from == id) e (edges_from id edges))
              (λ id. if_cons (e.to == id) (inbound_of_edge name e) (inbounds_to name id edges))))

  -- For a well-formed topology whose workers and buffer sizes are neither negative nor larger than
  -- the channels that the runtime makes, which 64 messages and one batch are not: buildRuntimeGraph
  -- does not panic, and a graph that it returns has a node for every stage, which reads from the
  -- buffers of the edges that reach the stage, and under every stage the edges that leave it, all
  -- in the order of the configuration.
  pub build_runtime_graph-Safe :
      (ir : TopologyIr)
      → HasRoom platform
      → IsValid ir
      → IsSized platform ir
      → Safe (IsGraphOf ir) (build_runtime_graph compile platform ir)
  unfolding build_runtime_graph lookup inbound_edges
  build_runtime_graph-Safe ir room valid sized =
      let empty : RuntimeGraph (Program Expr) = record {
        nodes = [];
        outgoing = [];
        edge_inbounds = [];
      } in
      Safe-bind (Staged ir.stages empty) (IsGraphOf ir) _ _
        (add_stages-Safe room (inbound_sizes ir.edges []) ir.stages empty
          (inbound_sizes_in_range platform.max_pointers ir.edges [] sized.buffers
            (no_sizes platform.max_pointers))
          sized.workers)
        (λ g₁ one.
          Safe-weaken _ (IsGraphOf ir) _
            (add_edges-Safe ir.name ir.edges g₁ (λ e l. (
              one.nodes e.from (inl (valid.starts e l)),
              one.nodes e.to (inl (valid.ends e l)),
              sized.buffers e l,
            )))
            (λ g₂ more. record {
              nodes = λ id d. more.nodes id (one.nodes id (inl d));
              outgoing = λ id.
                  more.outgoing id
                  ∙ ap (λ m. get_or id [] m ++ edges_from id ir.edges) one.outgoing;
              inbounds = λ id.
                  more.inbounds id
                  ∙ ap (λ x. x ++ inbounds_to ir.name id ir.edges) (one.inbounds id refl);
            }))
