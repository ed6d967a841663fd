-- ===== src/Config/Normalize.antt =====
-- internal/config/normalize.go: the stages and edges of a configuration, and its defaults. A loop over
-- the map of steps runs in the order of the association list.
use eventr.Common.{
  String, ◌<>◌, List, [], ◌∷◌, ◌++◌, ℕ, zero, suc, Option, none, some, if◌then◌else◌, is_empty,
  length,
}
use eventr.Common.Int.{pos}
use eventr.Common.Dict.{Dict, lookup, insert, get_or}
use eventr.Config.Types.{
  EdgeAttrs, EdgeConfig, StageConfig, StepConfig, SourceBlock, TransformBlock, SinkBlock,
  PipelineConfig, EngineConfig, ObservabilityConfig, CodecConfig, DlqConfig,
}
use eventr.Config.Edges.{Normalized, NormalizeError, ok, err, expand_depends_on, text_or}

abbrev no_stage : StageConfig
no_stage = record {
  id = "";
  kind = "";
  type = "";
  depends_on = [];
  decoder = none;
  encoder = none;
  workers = pos 0;
  predicate = "";
  error_mode = "";
  batch = none;
  ordering = "";
  max_in_flight = pos 0;
  config = none;
}

unfoldable pub pipeline_name : PipelineConfig → String
pipeline_name cfg = text_or (get_or "name" "" cfg.metadata) "unnamed"

unfoldable pub source_stage : String → Option SourceBlock → List StageConfig
source_stage name none = []
source_stage name (some b) =
    record no_stage {
      id = name;
      kind = "source";
      type = b.type;
      decoder = b.decoder;
      config = b.config;
    }
    ∷ []

unfoldable pub transform_stage : String → Option TransformBlock → List StageConfig
transform_stage name none = []
transform_stage name (some b) =
    record no_stage {
      id = name;
      kind = "transform";
      type = b.type;
      workers = b.workers;
      predicate = b.predicate;
      error_mode = b.error_mode;
      config = b.config;
    }
    ∷ []

abbrev sink_id : String → Option TransformBlock → String
sink_id name none = name
sink_id name (some b) = name <> "-sink"

unfoldable pub sink_stage : String → Option TransformBlock → Option SinkBlock → List StageConfig
sink_stage name t none = []
sink_stage name t (some b) =
    record no_stage {
      id = sink_id name t;
      kind = "sink";
      type = b.type;
      encoder = b.encoder;
      batch = b.batch;
      ordering = b.ordering;
      max_in_flight = b.max_in_flight;
      config = b.config;
    }
    ∷ []

-- The edge from a step's transform to the sink of the same step.
unfoldable pub inner_edge : String → Option TransformBlock → Option SinkBlock → List EdgeConfig
inner_edge name none s = []
inner_edge name (some t) none = []
inner_edge name (some t) (some s) =
    record {
      from = name;
      to = name <> "-sink";
      condition = "";
      route = "";
      buffer = none;
      delivery = none;
      required = none;
    }
    ∷ []

unfoldable pub step_stages : String → StepConfig → List StageConfig
unfolding source_stage transform_stage sink_stage
step_stages name step =
    source_stage name step.source
    ++ transform_stage name step.transform
    ++ sink_stage name step.transform step.sink

abbrev pub Graph : Type 0
Graph = List StageConfig × List EdgeConfig

abbrev with_edges : Normalized (List EdgeConfig) → List EdgeConfig → Normalized (List EdgeConfig)
with_edges (ok more) edges = ok (edges ++ more)
with_edges (err x) edges = err x

abbrev join : List StageConfig → Normalized (List EdgeConfig) → Normalized Graph → Normalized Graph
join stages (err x) rest = err x
join stages (ok edges) (err x) = err x
join stages (ok edges) (ok (more, others)) = ok (stages ++ more, edges ++ others)

abbrev join_edges :
    Normalized (List EdgeConfig) → Normalized (List EdgeConfig) → Normalized (List EdgeConfig)
join_edges (err x) rest = err x
join_edges (ok edges) (err x) = err x
join_edges (ok edges) (ok others) = ok (edges ++ others)

abbrev with_stages : List StageConfig → Normalized (List EdgeConfig) → Normalized Graph
with_stages stages (ok edges) = ok (stages, edges)
with_stages stages (err x) = err x

module _ (quote : String → String) where
  -- The loop of NormalizeSteps.
  unfoldable pub normalize_each : Dict StepConfig → EdgeAttrs → Normalized Graph
  unfolding step_stages inner_edge expand_depends_on
  normalize_each [] defaults = ok ([], [])
  normalize_each ((name, step) ∷ steps) defaults =
      join (step_stages name step)
        (with_edges (expand_depends_on quote name step.depends_on defaults)
          (inner_edge name step.transform step.sink))
        (normalize_each steps defaults)

  unfoldable pub normalize_steps : PipelineConfig → Normalized Graph
  unfolding normalize_each
  normalize_steps cfg =
      if is_empty cfg.steps
      then err NormalizeError.steps_empty
      else if is_empty cfg.pipeline
      then normalize_each cfg.steps cfg.edge_defaults
      else err NormalizeError.steps_and_pipeline

  -- The loop of NormalizePipeline.
  unfoldable pub expand_each : List StageConfig → EdgeAttrs → Normalized (List EdgeConfig)
  unfolding expand_depends_on
  expand_each [] defaults = ok []
  expand_each (st ∷ stages) defaults =
      join_edges (expand_depends_on quote st.id st.depends_on defaults)
        (expand_each stages defaults)

  unfoldable pub normalize_pipeline : PipelineConfig → Normalized Graph
  unfolding expand_each
  normalize_pipeline cfg =
      if is_empty cfg.pipeline
      then err NormalizeError.pipeline_empty
      else if is_empty cfg.steps
      then with_stages cfg.pipeline (expand_each cfg.pipeline cfg.edge_defaults)
      else err NormalizeError.steps_and_pipeline

-- edgeKey
abbrev pub edge_key : EdgeConfig → String
edge_key e = e.from <> "->" <> e.to

-- The index of the last edge of each key, from a position on.
unfoldable pub index_from : ℕ → List EdgeConfig → Dict ℕ → Dict ℕ
unfolding insert
index_from i [] index = index
index_from i (e ∷ edges) index = index_from (suc i) edges (insert (edge_key e) i index)

-- out[i] = e
unfoldable pub set_at {ℓ} : {A : Type ℓ} → ℕ → A → List A → List A
set_at i e [] = []
set_at zero e (x ∷ xs) = e ∷ xs
set_at (suc i) e (x ∷ xs) = x ∷ set_at i e xs

unfoldable pub merge_each : List EdgeConfig → Dict ℕ → List EdgeConfig → List EdgeConfig
unfolding set_at lookup insert
merge_each [] index out = out
merge_each (e ∷ deprecated) index out = elim (lookup (edge_key e) index) [
  | some i ↦ merge_each deprecated index (set_at i e out)
  | none ↦ merge_each deprecated (insert (edge_key e) (length out) index) (out ++ e ∷ [])
]

unfoldable pub merge_deprecated_edges :
    List EdgeConfig → List EdgeConfig → List EdgeConfig × List String
unfolding index_from merge_each
merge_deprecated_edges edges deprecated = if is_empty deprecated then (edges, []) else (
  merge_each deprecated (index_from 0 edges []) edges,
  "top-level edges: deprecated; use depends_on instead" ∷ [],
)

-- topologyBuildResult
pub record Build : Type 0 where
  pub name : String
  pub engine : EngineConfig
  pub stages : List StageConfig
  pub edges : List EdgeConfig
  pub codecs : List CodecConfig
  pub edge_defaults : EdgeAttrs
  pub dlq : Option DlqConfig
  pub observability : ObservabilityConfig
  pub deprecation_warnings : List String

abbrev built : PipelineConfig → Normalized Graph → Normalized Build
built cfg (err x) = err x
built cfg (ok (stages, edges)) =
    let (merged, warnings) = merge_deprecated_edges edges cfg.edges in
    ok (record {
      name = pipeline_name cfg;
      engine = cfg.engine;
      stages = stages;
      edges = merged;
      codecs = cfg.codecs;
      edge_defaults = cfg.edge_defaults;
      dlq = cfg.dlq;
      observability = cfg.observability;
      deprecation_warnings = warnings;
    })

-- BuildTopologyIR
unfoldable pub build_topology_ir : (String → String) → PipelineConfig → Normalized Build
unfolding normalize_steps normalize_pipeline merge_deprecated_edges pipeline_name
build_topology_ir quote cfg =
    if is_empty cfg.steps
    then if is_empty cfg.pipeline
      then err NormalizeError.nothing_defined
      else built cfg (normalize_pipeline quote cfg)
    else built cfg (normalize_steps quote cfg)
