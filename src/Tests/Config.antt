-- ===== src/Tests/Config.antt =====
-- Edge attributes and dependencies of a small configuration.
use eventr.Common.{false, List, [], ◌∷◌, ◌≡◌, some, ◌↔◌, All}
use eventr.Config.Types.{EdgeAttrs, EdgeConfig}
use eventr.Config.Edges.{no_attrs, expand_depends_on, ok}
use eventr.Config.Edges.Expand.{expand_depends_on_iff, Accepted, edges_of}
use eventr.Tests.Samples.{after_in}

abbrev routed : EdgeAttrs
routed = record no_attrs { route = "left" }

abbrev optional : EdgeAttrs
optional = record no_attrs { required = some false }

abbrev edges : List EdgeConfig
edges = edges_of (λ s. s) "out" routed (after_in ∷ [])

expand_depends_on_iff_example :
    (expand_depends_on (λ s. s) "out" (after_in ∷ []) routed ≡ ok edges)
    ↔ (All (Accepted routed) (after_in ∷ []) × (edges ≡ edges))
expand_depends_on_iff_example = expand_depends_on_iff (λ s. s) "out" (after_in ∷ []) routed edges
