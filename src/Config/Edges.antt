-- ===== src/Config/Edges.antt =====
-- internal/config/normalize.go: edge attributes, and the edges of depends_on. `quote` is the %q of
-- fmt.Sprintf.
pub mod Merge
pub mod Expand
use eventr.Common.{
  Bool, true, false, String, ◌<>◌, List, [], ◌∷◌, Option, none, some, if◌then◌else◌, not, ◌&&◌,
}
use eventr.Common.Text.{◌==◌}
use eventr.Config.Types.{EdgeAttrs, EdgeConfig, DependsOnEntry, CodecRef}

pub data NormalizeError : Type 0 where
  empty_upstream : String → NormalizeError
  route_and_condition : String → String → NormalizeError
  steps_empty steps_and_pipeline pipeline_empty nothing_defined : NormalizeError

pub data Normalized {ℓ} (A : Type ℓ) : Type ℓ where
  ok : A → Normalized A
  err : NormalizeError → Normalized A

-- CodecRef.ResolveType
unfoldable pub resolve_type : CodecRef → String
resolve_type c = if c.ref == "" then c.type else c.ref

-- `if s != "" { out = s }`
abbrev pub text_or : String → String → String
text_or s t = if s == "" then t else s

abbrev pub given_or {ℓ} : {A : Type ℓ} → Option A → Option A → Option A
given_or none o = o
given_or (some a) o = some a

abbrev pub no_attrs : EdgeAttrs
no_attrs = record { condition = ""; route = ""; buffer = none; delivery = none; required = none }

-- What an override changes of the attributes that stand so far.
unfoldable pub override_attrs : EdgeAttrs → EdgeAttrs → EdgeAttrs
override_attrs out o = record {
  condition = text_or o.condition out.condition;
  route = text_or o.route out.route;
  buffer = given_or o.buffer out.buffer;
  delivery = given_or o.delivery out.delivery;
  required = given_or o.required out.required;
}

unfoldable pub merge_edge_attrs : Option EdgeAttrs → Option EdgeAttrs → EdgeAttrs
unfolding override_attrs
merge_edge_attrs none none = no_attrs
merge_edge_attrs (some base) none = base
merge_edge_attrs none (some o) = override_attrs no_attrs o
merge_edge_attrs (some base) (some o) = override_attrs base o

abbrev pub is_required : Option Bool → Bool
is_required none = true
is_required (some b) = b

module _ (quote : String → String) where
  unfoldable pub route_condition : String → String
  route_condition route = "metadata[\"er-route\"] == " <> quote route

  -- The edge of one dependency, from its merged attributes.
  unfoldable pub dependency_edge : String → String → EdgeAttrs → EdgeConfig
  unfolding route_condition
  dependency_edge step_id upstream attrs = record {
    from = upstream;
    to = step_id;
    condition = if attrs.route == "" then attrs.condition else route_condition attrs.route;
    route = "";
    buffer = attrs.buffer;
    delivery = attrs.delivery;
    required = some (is_required attrs.required);
  }

  abbrev pub cons_edge : EdgeConfig → Normalized (List EdgeConfig) → Normalized (List EdgeConfig)
  cons_edge e (ok edges) = ok (e ∷ edges)
  cons_edge e (err x) = err x

  unfoldable pub expand_depends_on :
      String → List DependsOnEntry → EdgeAttrs → Normalized (List EdgeConfig)
  unfolding dependency_edge
  expand_depends_on step_id [] defaults = ok []
  expand_depends_on step_id (dep ∷ deps) defaults =
      let rest = expand_depends_on step_id deps defaults in
      let attrs = merge_edge_attrs (some defaults) dep.edge in
      if dep.upstream == ""
      then err (empty_upstream step_id)
      else if not (attrs.route == "") && not (attrs.condition == "")
      then err (route_and_condition step_id dep.upstream)
      else cons_edge (dependency_edge step_id dep.upstream attrs) rest
