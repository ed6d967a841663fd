-- ===== src/Engine/Graph/Growth.antt =====
-- How the steps of buildRuntimeGraph (internal/engine/graph.go) add to the graph.
use mathlib.Core.List.{append-nil, append_assoc}
use eventr.Common.{
  Bool, true, false, String, List, [], ◌∷◌, ◌++◌, Option, none, some, if◌then◌else◌, ◌≡◌, ◌≢◌, refl,
  sym, ap, ◌∙◌, subst, arith, inl, inr, ◌⊎◌, Option-cases,
}
use eventr.Common.Text.{◌==◌, string_dec}
use eventr.Common.Dict.{Dict, lookup, insert, get_or, lookup-insert}
use eventr.Common.Outcome.{Outcome, ◌>>=◌, or_panic, Safe}
use eventr.Topology.Ir.{EdgeIr}
use eventr.Topology.Defaults.{default_buffer}
use eventr.Engine.Graph.{EdgeInbound, RuntimeNode, RuntimeGraph, put_node, edge_key}

-- The edges that leave a stage, and the buffers of those that reach it, in the order of the file.
unfoldable pub edges_from : String → List EdgeIr → List EdgeIr
edges_from id [] = []
edges_from id (e ∷ edges) =
    let rest = edges_from id edges in if e.from == id then e ∷ rest else rest

unfoldable pub inbound_of_edge : String → EdgeIr → EdgeInbound
inbound_of_edge name e = record {
  pipeline = name;
  from = e.from;
  to = e.to;
  cfg = default_buffer e.buffer;
}

unfoldable pub inbounds_to : String → String → List EdgeIr → List EdgeInbound
unfolding inbound_of_edge
inbounds_to name id [] = []
inbounds_to name id (e ∷ edges) =
    let rest = inbounds_to name id edges in
    if e.to == id then inbound_of_edge name e ∷ rest else rest

-- What the node of a stage reads, and the conditions do not change it.
abbrev inbound_edges_of {ℓ} : {Program : Type ℓ} → Option (RuntimeNode Program) → List EdgeInbound
inbound_edges_of none = []
inbound_edges_of (some n) = n.inbound_edges

abbrev id_of {ℓ} : {Program : Type ℓ} → Option (RuntimeNode Program) → Option String
id_of none = none
id_of (some n) = some n.id

-- The node of the stage is there, under its own name.
abbrev pub HasNode {ℓ} : {Program : Type ℓ} → String → RuntimeGraph Program → Type 0
HasNode id g = id_of (lookup id g.nodes) ≡ some id

unfoldable pub inbound_edges {ℓ} :
    {Program : Type ℓ} → String → RuntimeGraph Program → List EdgeInbound
inbound_edges id g = inbound_edges_of (lookup id g.nodes)

-- What a step keeps or adds.
pub record Grows {ℓ} {Program : Type ℓ} (g g' : RuntimeGraph Program) (out : String → List EdgeIr)
    (ins : String → List EdgeInbound) : Type 0 where
  pub nodes : (id : String) → HasNode id g → HasNode id g'
  pub outgoing : (id : String) → get_or id [] g'.outgoing ≡ get_or id [] g.outgoing ++ out id
  pub inbounds : (id : String) → inbound_edges id g' ≡ inbound_edges id g ++ ins id

module _ {ℓ} {Program : Type ℓ} where
  pub HasNode-put_node :
      (id : String) (n : RuntimeNode Program) (g : RuntimeGraph Program)
      → HasNode id g ⊎ (n.id ≡ id)
      → HasNode id (put_node n g)
  HasNode-put_node id n g h = let l = lookup-insert id n.id n g.nodes in ground arith

  inbound_edges-put_node :
      (id : String) (n : RuntimeNode Program) (g : RuntimeGraph Program)
      → inbound_edges id (put_node n g)
        ≡ (if n.id == id then n.inbound_edges else inbound_edges id g)
  unfolding inbound_edges
  inbound_edges-put_node id n g = let l = lookup-insert id n.id n g.nodes in ground arith

  pub inbound_edges_new :
      (id : String) (n : RuntimeNode Program) (g : RuntimeGraph Program)
      → n.inbound_edges ≡ []
      → inbound_edges id g ≡ []
      → inbound_edges id (put_node n g) ≡ []
  inbound_edges_new id n g hn hg = let i = inbound_edges-put_node id n g in ground arith

  node_of_HasNode :
      (id : String) (g : RuntimeGraph Program)
      → HasNode id g
      → (n : RuntimeNode Program) × (lookup id g.nodes ≡ some n) × (n.id ≡ id)
  node_of_HasNode id g h = elim (Option-cases (lookup id g.nodes)) [
    | inl e ↦ absurd (ground arith)
    | inr (n, e) ↦ (n, e, ground arith)
  ]

pub Safe-node {ℓ κ μ} :
    {Program : Type ℓ} {E : Type κ} {B : Type μ} (Q : B → Type 0) (id : String)
    (g : RuntimeGraph Program) (f : RuntimeNode Program → Outcome E B)
    → HasNode id g
    → ((n : RuntimeNode Program) → lookup id g.nodes ≡ some n → n.id ≡ id → Safe Q (f n))
    → Safe Q (or_panic (lookup id g.nodes) >>= f)
Safe-node Q id g f h next =
    let (n, e, i) = node_of_HasNode id g h in
    subst (λ o. Safe Q (or_panic o >>= f)) (sym e) (next n e i)

pub if_cons {ℓ} :
    {A : Type ℓ} (b : Bool) (x : A) (rest : List A)
    → (if b then x ∷ rest else rest) ≡ (if b then x ∷ [] else []) ++ rest
if_cons true x rest = refl
if_cons false x rest = refl

then_of_eq {ℓ} : {A : Type ℓ} (s t : String) (x y : A) → s ≡ t → (if s == t then x else y) ≡ x
then_of_eq s t x y h = ground arith

else_of_ne {ℓ} : {A : Type ℓ} (s t : String) (x y : A) → s ≢ t → (if s == t then x else y) ≡ y
else_of_ne s t x y h = ground arith

-- A node that is written back, with more edges to read from.
pub rewritten {ℓ} :
    {Program : Type ℓ} (id : String) (g : RuntimeGraph Program) (n n' : RuntimeNode Program)
    (more : List EdgeInbound) (ins : String → List EdgeInbound)
    → ((j : String) → ins j ≡ (if id == j then more else []))
    → lookup id g.nodes ≡ some n
    → n.id ≡ id
    → n'.id ≡ n.id
    → n'.inbound_edges ≡ n.inbound_edges ++ more
    → Grows g (put_node n' g) (λ j. []) ins
unfolding inbound_edges
rewritten id g n n' more ins split k i i' m = record {
  nodes = λ j h. HasNode-put_node j n' g (inl h);
  outgoing = λ j. sym (append-nil _);
  inbounds = λ j.
      let l = inbound_edges-put_node j n' g in
      let a = append-nil (inbound_edges_of (lookup j g.nodes)) in
      elim (string_dec id j) [
        | yes p ↦
            let q : lookup j g.nodes ≡ some n = ap (λ x. lookup x g.nodes) (sym p) ∙ k in
            let now : inbound_edges j (put_node n' g) ≡ n'.inbound_edges = ground arith in
            let added : ins j ≡ more = split j ∙ then_of_eq id j more [] p in
            let before : inbound_edges j g ≡ n.inbound_edges = ap inbound_edges_of q in
            now
            ∙ m
            ∙ ap (λ x. x ++ more) (sym before)
            ∙ ap (λ x. inbound_edges j g ++ x) (sym added)
        | no ne ↦
            let added : ins j ≡ [] = split j ∙ else_of_ne id j more [] ne in
            let now : inbound_edges j (put_node n' g) ≡ inbound_edges j g = ground arith in
            now ∙ sym a ∙ ap (λ x. inbound_edges j g ++ x) (sym added)
      ];
}

-- The writes of the loop over the edges to the two other maps of the graph.
outgoing_added :
    (e : EdgeIr) (id : String) (out : Dict (List EdgeIr))
    → get_or id [] (insert e.from (get_or e.from [] out ++ e ∷ []) out)
      ≡ get_or id [] out ++ edges_from id (e ∷ [])
unfolding edges_from
outgoing_added e id out =
    let l = lookup-insert id e.from (get_or e.from [] out ++ e ∷ []) out in
    let a = append-nil (get_or id [] out) in
    elim (string_dec id e.from) [
      | yes p ↦
          (let q : get_or id [] out ≡ get_or e.from [] out = ap (λ x. get_or x [] out) p in
            ground arith)
      | no ne ↦ ground arith
    ]

-- The graph with an edge more.
abbrev pub linked {ℓ} :
    {Program : Type ℓ}
    → EdgeIr
    → RuntimeGraph Program
    → RuntimeNode Program
    → EdgeInbound
    → RuntimeGraph Program
linked e g n eb = record (put_node (record n { inbound_edges = n.inbound_edges ++ eb ∷ [] }) g) {
  edge_inbounds = insert (edge_key e.from e.to) eb g.edge_inbounds;
  outgoing = insert e.from (get_or e.from [] g.outgoing ++ e ∷ []) g.outgoing;
}

pub linked-Grows {ℓ} :
    {Program : Type ℓ} (name : String) (e : EdgeIr) (g : RuntimeGraph Program)
    (n : RuntimeNode Program) (eb : EdgeInbound)
    → lookup e.to g.nodes ≡ some n
    → n.id ≡ e.to
    → eb ≡ inbound_of_edge name e
    → Grows g (linked e g n eb) (λ id. edges_from id (e ∷ [])) (λ id. inbounds_to name id (e ∷ []))
unfolding inbounds_to inbound_of_edge inbound_edges
linked-Grows name e g n eb k i same =
    let r =
      rewritten e.to g n (record n { inbound_edges = n.inbound_edges ++ eb ∷ [] }) (eb ∷ [])
        (λ j. inbounds_to name j (e ∷ [])) (λ j. rw same refl) k i refl refl in
    record {
      nodes = r.nodes;
      outgoing = λ id. outgoing_added e id g.outgoing;
      inbounds = r.inbounds;
    }

pub grow_more {ℓ} :
    {Program : Type ℓ} (g g₁ g₂ : RuntimeGraph Program) (o o₁ o₂ : String → List EdgeIr)
    (i i₁ i₂ : String → List EdgeInbound)
    → Grows g g₁ o₁ i₁
    → Grows g₁ g₂ o₂ i₂
    → ((id : String) → o id ≡ o₁ id ++ o₂ id)
    → ((id : String) → i id ≡ i₁ id ++ i₂ id)
    → Grows g g₂ o i
grow_more g g₁ g₂ o o₁ o₂ i i₁ i₂ a b ho hi = record {
  nodes = λ id h. b.nodes id (a.nodes id h);
  outgoing = λ id.
      rw (b.outgoing id, a.outgoing id, ho id)
        (append_assoc (get_or id [] g.outgoing) (o₁ id) (o₂ id));
  inbounds = λ id.
      rw (b.inbounds id, a.inbounds id, hi id) (append_assoc (inbound_edges id g) (i₁ id) (i₂ id));
}

pub unchanged {ℓ} : {Program : Type ℓ} (g : RuntimeGraph Program) → Grows g g (λ id. []) (λ id. [])
unchanged g = record {
  nodes = λ id h. h;
  outgoing = λ id. sym (append-nil _);
  inbounds = λ id. sym (append-nil _);
}
