-- ===== src/Config/Edges/Merge.antt =====
-- MergeEdgeAttrs of internal/config/normalize.go: layers of defaults and overrides.
use eventr.Common.{String, Option, none, some, ◌≡◌, refl, arith}
use eventr.Config.Types.{EdgeAttrs}
use eventr.Config.Edges.{text_or, given_or, override_attrs, merge_edge_attrs}

given_or_assoc {ℓ} :
    {A : Type ℓ} (o p q : Option A) → given_or o (given_or p q) ≡ given_or (given_or o p) q
given_or_assoc none p q = refl
given_or_assoc (some a) p q = refl

text_or_assoc : (s t u : String) → text_or s (text_or t u) ≡ text_or (text_or s t) u
text_or_assoc s t u = ground arith

-- Merging an override into merged attributes is merging the merged overrides into the base: layers
-- of edge attributes may be merged in either grouping.
pub merge_edge_attrs_assoc :
    (a b c : EdgeAttrs)
    → merge_edge_attrs (some (merge_edge_attrs (some a) (some b))) (some c)
      ≡ merge_edge_attrs (some a) (some (merge_edge_attrs (some b) (some c)))
unfolding merge_edge_attrs override_attrs
merge_edge_attrs_assoc a b c =
    rw
      (
        text_or_assoc c.condition b.condition a.condition,
        text_or_assoc c.route b.route a.route,
        given_or_assoc c.buffer b.buffer a.buffer,
        given_or_assoc c.delivery b.delivery a.delivery,
        given_or_assoc c.required b.required a.required,
      )
      refl
