-- ===== src/Tests/Topology.antt =====
-- The validation of a small topology, and of one that goes round.
use mathlib.Core.List.{Memᴰ}
use mathlib.Core.List.Memᴰ
use mathlib.Core.List.Memᴰ.{head, tail}
use eventr.Common.{String, List, [], ◌∷◌, ◌≡◌, ◌≢◌, refl, none, ◌↔◌, ℕ, ap, sym}
use eventr.Common.Dict.{Dict, lookup, insert}
use eventr.Common.Text.{string_dec}
use eventr.Topology.Ir.{StageIr, EdgeIr, TopologyIr}
use eventr.Topology.Graph.{Walk, adjacency, add_edge}
use eventr.Topology.Cycle.{detect_cycle, clear, out_of_fuel, visit, visit_all, finish}
use eventr.Topology.Cycle.Decides.{detect_cycle_decides, detect_cycle_sound}
use eventr.Topology.Path
use eventr.Topology.Path.{has_source_to_sink_path}
use eventr.Topology.Path.Decides.{has_source_to_sink_path_decides, Connected}
use eventr.Topology.Validate.{validate}
use eventr.Topology.Validate.Sound.{validate_iff, IsValid}
use eventr.Topology.Build.{from_config}
use eventr.Topology.Build.Sound.{from_config-ok, Faithful}
use eventr.Config.Edges
use eventr.Config.Normalize.{Build, build_topology_ir}
use eventr.Config.Defaults.{apply_engine_defaults, apply_observability_defaults}
use eventr.Topology.Validate.{
  check_ids, check_each, check_edge, stage_ids, check_kind, incoming, outgoing, count_kind,
  check_incoming, check_codecs, check_ordering, is_empty, validate_codec_ref,
}
use eventr.Common.Codes.{lower, to_lower}
use eventr.Config.Defaults.{is_known_kind}
use eventr.Config.Normalize.{expand_each, merge_deprecated_edges, normalize_pipeline, pipeline_name}
use eventr.Topology.Build.{add_codecs, build_stages, validated}
use eventr.Topology.Graph.{adjacency_from}
use eventr.Tests.Samples.{stage, link, two_stages, one_edge, topology, config}

validate_iff_example : (validate topology ≡ none) ↔ IsValid topology
validate_iff_example = validate_iff topology

declared : (e : EdgeIr) → Memᴰ e one_edge → (s : StageIr) × Memᴰ s two_stages × (s.id ≡ e.from)
declared e (head same) = (stage "in" "source", head refl, ap (λ x. x.from) (sym same))
declared e (tail l) = absurd (Memᴰ.not-nil l)

detect_cycle_decides_example :
    (detect_cycle two_stages one_edge ≢ out_of_fuel)
    × (((m : Dict ℕ) × (detect_cycle two_stages one_edge ≡ clear m))
        ↔ ((x : String) → ¬ Walk one_edge x x))
detect_cycle_decides_example = detect_cycle_decides two_stages one_edge declared

abbrev round : List EdgeIr
round = link "in" "out" "" ∷ link "out" "in" "" ∷ []

detect_cycle_sound_example : Walk round "in" "in"
unfolding detect_cycle string_dec visit_all visit lookup finish adjacency add_edge insert
detect_cycle_sound_example = detect_cycle_sound round two_stages "in" refl

has_source_to_sink_path_decides_example :
    (has_source_to_sink_path two_stages one_edge ≢ Path.out_of_fuel)
    × ((has_source_to_sink_path two_stages one_edge ≡ Path.found) ↔ Connected two_stages one_edge)
has_source_to_sink_path_decides_example = has_source_to_sink_path_decides two_stages one_edge

abbrev built : TopologyIr
built = record topology {
  name = "unnamed";
  engine = apply_engine_defaults topology.engine;
  stages = two_stages;
  observability = apply_observability_defaults topology.observability;
}

from_config-ok_example :
    (b : Build) × (build_topology_ir (λ s. s) config ≡ Edges.ok b)
    × Faithful b built
    × IsValid built
unfolding from_config string_dec Edges.merge_edge_attrs validate check_ids check_each check_edge
    stage_ids check_kind incoming outgoing count_kind check_incoming detect_cycle visit_all visit
    finish adjacency add_edge lower to_lower insert lookup is_known_kind Edges.dependency_edge
    Edges.expand_depends_on Edges.override_attrs Edges.route_condition build_topology_ir expand_each
    merge_deprecated_edges normalize_pipeline pipeline_name add_codecs build_stages validated
    adjacency_from Path.expand has_source_to_sink_path Path.ids_of_kind Path.offer Path.offer_all
    Path.search Path.search_each check_codecs check_ordering is_empty validate_codec_ref
from_config-ok_example = from_config-ok (λ s. s) config built refl

-- The small topology is well formed.
pub topology-IsValid : IsValid topology
unfolding string_dec validate check_ids check_each check_edge stage_ids check_kind incoming outgoing
    count_kind check_incoming detect_cycle visit_all visit finish adjacency add_edge insert lookup
    adjacency_from Path.expand has_source_to_sink_path Path.ids_of_kind Path.offer Path.offer_all
    Path.search Path.search_each check_codecs check_ordering is_empty validate_codec_ref
topology-IsValid = (validate_iff topology).0 refl
