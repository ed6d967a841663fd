-- ===== src/Topology/Build.antt =====
-- FromConfig of internal/topology/build.go: from a configuration to a validated topology.
pub mod Codecs
pub mod Sound
use eventr.Common.{Bool, String, List, [], ◌∷◌, ◌++◌, Option, none, some, if◌then◌else◌, map}
use eventr.Common.Int.{pos}
use eventr.Common.Text.{◌==◌}
use eventr.Common.Dict.{Dict, has, insert}
use eventr.Config.Types.{CodecConfig, StageConfig, EdgeConfig, EdgeBufferConfig, PipelineConfig}
use eventr.Config.Edges
use eventr.Config.Edges.{Normalized, NormalizeError, is_required}
use eventr.Config.Normalize.{Build, build_topology_ir}
use eventr.Config.Defaults.{apply_engine_defaults, apply_observability_defaults, is_known_kind}
use eventr.Topology.Ir.{StageIr, CodecIr, EdgeIr, TopologyIr}
use eventr.Topology.Validate.{ValidationError, validate}

pub data BuildError : Type 0 where
  not_normalized : NormalizeError → BuildError
  codec_without_name : BuildError
  duplicate_codec : String → BuildError
  unknown_kind : String → String → BuildError
  invalid : ValidationError → BuildError

pub data Result {ℓ} (A : Type ℓ) : Type ℓ where
  ok : A → Result A
  err : BuildError → Result A

-- The loop over the codecs, from the table filled so far.
unfoldable pub add_codecs : Dict CodecIr → List CodecConfig → Result (Dict CodecIr)
add_codecs table [] = ok table
add_codecs table (c ∷ codecs) =
    let rest =
      add_codecs (insert c.name (record { name = c.name; type = c.type; config = c.config }) table)
        codecs in
    if c.name == ""
    then err codec_without_name
    else if has c.name table
    then err (duplicate_codec c.name)
    else rest

abbrev pub stage_of : StageConfig → StageIr
stage_of st = record {
  id = st.id;
  kind = st.kind;
  type = st.type;
  workers = st.workers;
  predicate = st.predicate;
  error_mode = st.error_mode;
  decoder = st.decoder;
  encoder = st.encoder;
  batch = st.batch;
  ordering = st.ordering;
  max_in_flight = st.max_in_flight;
  config = st.config;
}

abbrev pub cons_stage : StageIr → Result (List StageIr) → Result (List StageIr)
cons_stage s (ok stages) = ok (s ∷ stages)
cons_stage s (err x) = err x

-- The loop over the stages.
unfoldable pub build_stages : List StageConfig → Result (List StageIr)
unfolding is_known_kind
build_stages [] = ok []
build_stages (st ∷ stages) =
    let rest = build_stages stages in
    if is_known_kind st then cons_stage (stage_of st) rest else err (unknown_kind st.id st.kind)

abbrev pub no_buffer : EdgeBufferConfig
no_buffer = record {
  type = "";
  size = pos 0;
  strategy = "";
  key = [];
  disk_path = "";
  disk_max_size = pos 0;
  disk_sync_interval = "";
}

abbrev pub buffer_or_empty : Option EdgeBufferConfig → EdgeBufferConfig
buffer_or_empty none = no_buffer
buffer_or_empty (some b) = b

-- The body of the loop over the edges.
abbrev pub edge_of : EdgeConfig → EdgeIr
edge_of e = record {
  from = e.from;
  to = e.to;
  condition = e.condition;
  route = e.route;
  buffer = buffer_or_empty e.buffer;
  delivery = e.delivery;
  required = is_required e.required;
}

-- The topology of what was built, its codecs and its stages.
abbrev pub ir_of : Build → Dict CodecIr → List StageIr → TopologyIr
ir_of b codecs stages = record {
  name = b.name;
  engine = apply_engine_defaults b.engine;
  stages = stages;
  edges = map edge_of b.edges;
  codecs = codecs;
  edge_defaults = b.edge_defaults;
  dlq = b.dlq;
  observability = apply_observability_defaults b.observability;
  deprecation_warnings = b.deprecation_warnings;
}

unfoldable pub validated : TopologyIr → Result TopologyIr
validated ir = elim (validate ir) [ none ↦ ok ir | some e ↦ err (invalid e) ]

abbrev pub with_stages : Build → Dict CodecIr → Result (List StageIr) → Result TopologyIr
with_stages b codecs (err x) = err x
with_stages b codecs (ok stages) = validated (ir_of b codecs stages)

abbrev pub with_codecs : Build → Result (Dict CodecIr) → Result TopologyIr
with_codecs b (err x) = err x
with_codecs b (ok codecs) = with_stages b codecs (build_stages b.stages)

abbrev pub after_build : Normalized Build → Result TopologyIr
after_build (Edges.err x) = err (not_normalized x)
after_build (Edges.ok b) = with_codecs b (add_codecs [] b.codecs)

-- FromConfig
unfoldable pub from_config : (String → String) → PipelineConfig → Result TopologyIr
unfolding build_topology_ir add_codecs build_stages validated
from_config quote cfg = after_build (build_topology_ir quote cfg)
