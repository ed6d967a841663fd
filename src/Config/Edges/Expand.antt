-- ===== src/Config/Edges/Expand.antt =====
-- ExpandDependsOn of internal/config/normalize.go: which dependencies it accepts, and their edges.
use eventr.Common.{
  String, List, [], ◌∷◌, some, ◌≡◌, ◌≢◌, refl, arith, ap, map, All, ◌↔◌, ◌⊎◌, ◌∙◌, sym, inl, inr,
  Bool-cases, not, ◌&&◌,
}
use eventr.Common.Text.{◌==◌}
use eventr.Config.Types.{EdgeAttrs, EdgeConfig, DependsOnEntry}
use eventr.Config.Edges.{
  Normalized, NormalizeError, ok, err, cons_edge, merge_edge_attrs, dependency_edge,
  expand_depends_on,
}

-- A dependency that ExpandDependsOn accepts: it names its upstream, and its attributes, over the
-- defaults, do not set both a route and a condition.
abbrev pub Accepted : EdgeAttrs → DependsOnEntry → Type 0
Accepted defaults dep =
    (dep.upstream ≢ "")
    × (((merge_edge_attrs (some defaults) dep.edge).route ≡ "")
        ⊎ ((merge_edge_attrs (some defaults) dep.edge).condition ≡ ""))

module _ (quote : String → String) where
  abbrev pub edges_of : String → EdgeAttrs → List DependsOnEntry → List EdgeConfig
  edges_of id defaults deps =
      map (λ dep. dependency_edge quote id dep.upstream (merge_edge_attrs (some defaults) dep.edge))
        deps

  edge_at : String → EdgeAttrs → DependsOnEntry → EdgeConfig
  edge_at id defaults dep =
      dependency_edge quote id dep.upstream (merge_edge_attrs (some defaults) dep.edge)

  cons_edge-ok :
      (e : EdgeConfig) (r : Normalized (List EdgeConfig)) (edges : List EdgeConfig)
      → cons_edge quote e r ≡ ok edges
      → (rest : List EdgeConfig) × (r ≡ ok rest) × (edges ≡ e ∷ rest)
  cons_edge-ok e (ok rest) edges h = (rest, refl, cc)
  cons_edge-ok e (err x) edges h = cc

  expand-cases :
      (id : String) (dep : DependsOnEntry) (deps : List DependsOnEntry) (defaults : EdgeAttrs)
      → Accepted defaults dep
          × (expand_depends_on quote id (dep ∷ deps) defaults
              ≡ cons_edge quote
                  (edge_at id defaults dep)
                  (expand_depends_on quote id deps defaults))
        ⊎ (¬ Accepted defaults dep)
          × ((x : NormalizeError) × (expand_depends_on quote id (dep ∷ deps) defaults ≡ err x))
  unfolding expand_depends_on edge_at
  expand-cases id dep deps defaults =
      let attrs = merge_edge_attrs (some defaults) dep.edge in
      elim (Bool-cases (dep.upstream == "")) [
        | inl e ↦ inr ((λ a. a.0 (ground arith)), (NormalizeError.empty_upstream id, ground arith))
        | inr e ↦ elim (Bool-cases (not (attrs.route == "") && not (attrs.condition == ""))) [
          | inl f ↦ inr (
            (λ a. ground arith),
            (NormalizeError.route_and_condition id dep.upstream, ground arith),
          )
          | inr f ↦ inl ((ground arith, ground arith), ground arith)
        ]
      ]

  -- ExpandDependsOn returns edges exactly if every dependency names its upstream and sets no route
  -- beside a condition, and what it returns is one edge for each dependency, in order.
  pub expand_depends_on_iff :
      (id : String) (deps : List DependsOnEntry) (defaults : EdgeAttrs) (edges : List EdgeConfig)
      → (expand_depends_on quote id deps defaults ≡ ok edges)
        ↔ (All (Accepted defaults) deps × (edges ≡ edges_of id defaults deps))
  unfolding expand_depends_on edge_at
  expand_depends_on_iff id [] defaults edges = ((λ h. (tt, cc)), λ (_, e). ap ok (sym e))
  expand_depends_on_iff id (dep ∷ deps) defaults edges = elim (expand-cases id dep deps defaults) [
    | inr (refused, (x, e)) ↦ ((λ h. cc), λ ((a, _), _). absurd (refused a))
    | inl (a, e) ↦ (
      λ h.
          let (rest, r, same) =
            cons_edge-ok (edge_at id defaults dep) (expand_depends_on quote id deps defaults) edges
              (sym e ∙ h) in
          let (all, f) = (expand_depends_on_iff id deps defaults rest).0 r in
          ((a, all), same ∙ ap (edge_at id defaults dep ∷◌) f),
      λ ((_, all), f).
          let r =
            (expand_depends_on_iff id deps defaults (edges_of id defaults deps)).1 (all, refl) in
          e ∙ ap (cons_edge quote (edge_at id defaults dep)) r ∙ ap ok (sym f),
    )
  ]
