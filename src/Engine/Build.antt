-- ===== src/Engine/Build.antt =====
-- NewPipeline, instantiateStage, resolveCodecs and resolveCodecRef of internal/engine/pipeline.go: a
-- pipeline from a topology and the registry. `compile` and `platform` are those of the runtime graph.
pub mod Sound
use eventr.Common.{
  Bool, String, List, [], ◌∷◌, Option, none, some, if◌then◌else◌, ◌⊎◌, inl, inr, not,
}
use eventr.Common.Text.{◌==◌}
use eventr.Common.Dict.{Dict, lookup, insert}
use eventr.Common.Outcome.{Outcome, ok, err, panic, ◌>>=◌}
use eventr.Config.Value.{Fields, nil, field, put, remove}
use eventr.Config.Types.{CodecRef}
use eventr.Topology.Ir.{StageIr, CodecIr, TopologyIr, kind_source, kind_transform, kind_sink}
use eventr.Topology.Validate.{is_empty}
use eventr.Registry.{
  FactoryConfig, Registry, RegistryError, create_source, create_transform, create_sink,
  create_codec,
}
use eventr.Eql.Compile.{Program}
use eventr.Engine.Graph.{
  EdgeInbound, Platform, disk_options, RuntimeGraph, GraphError, build_runtime_graph,
}

-- A stage.Stage, which the code asserts to be a source, a transform or a sink.
pub data Stage {ℓ} (Source Transform Sink : Type ℓ) : Type ℓ where
  as_source : Source → Stage Source Transform Sink
  as_transform : Transform → Stage Source Transform Sink
  as_sink : Sink → Stage Source Transform Sink

pub record Pipeline {ℓ} (Source Transform Sink Codec Program : Type ℓ) : Type ℓ where
  pub ir : TopologyIr
  pub stages : Dict (Stage Source Transform Sink)
  pub stage_error_mode : Dict String
  pub decoders : Dict Codec
  pub encoders : Dict Codec
  pub graph : RuntimeGraph Program

pub data PipelineError {ℓ} (E : Type ℓ) : Type ℓ where
  unknown_stage_kind : String → PipelineError E
  stage_failed : String → RegistryError E → PipelineError E
  ref_not_found : String → String → String → PipelineError E
  codec_failed : String → RegistryError E → PipelineError E
  graph_failed : GraphError E → PipelineError E

unfoldable pub error_modes : List StageIr → Dict String → Dict String
unfolding insert
error_modes [] modes = modes
error_modes (st ∷ stages) modes =
    error_modes stages
      (if not (st.error_mode == "") then insert st.id st.error_mode modes else modes)

-- The copy of a map of entries onto another.
unfoldable pub put_all : Fields → Fields → Fields
unfolding put
put_all nil m = m
put_all (field k v rest) m = put_all rest (put k v m)

abbrev fields_of : Option Fields → Fields
fields_of none = nil
fields_of (some m) = m

-- The entries that are written last replace the stage's own.
unfoldable pub without_reserved : Fields → Fields
unfolding remove
without_reserved m = remove "__decoder" (
    remove "__encoder" (
      remove "__predicate"
        (remove "__workers" (remove "__batch" (remove "__ordering" (remove "__max_in_flight" m))))))

unfoldable pub factory_config : StageIr → FactoryConfig
unfolding put_all without_reserved
factory_config st = record {
  own = without_reserved (put_all (fields_of st.config) nil);
  decoder = st.decoder;
  encoder = st.encoder;
  predicate = st.predicate;
  workers = st.workers;
  batch = st.batch;
  ordering = st.ordering;
  max_in_flight = st.max_in_flight;
}

-- The configuration of a referred codec, with the entries of the reference over it.
unfoldable pub merge_config : Option Fields → Option Fields → Option Fields
unfolding put_all
merge_config cfg none = cfg
merge_config cfg (some own) = some (put_all own (put_all (fields_of cfg) nil))

module _ {ℓ} {E Source Transform Sink Codec : Type ℓ}
    (reg : Registry E Source Transform Sink Codec) where
  abbrev pub stage_of :
      {A : Type ℓ}
      → String
      → (A → Stage Source Transform Sink)
      → RegistryError E ⊎ A
      → Outcome (PipelineError E) (Stage Source Transform Sink)
  stage_of id wrap (inl e) = err (stage_failed id e)
  stage_of id wrap (inr a) = ok (wrap a)

  unfoldable pub instantiate_stage :
      StageIr → Outcome (PipelineError E) (Stage Source Transform Sink)
  unfolding factory_config create_source create_transform create_sink
  instantiate_stage st =
      let cfg = factory_config st in
      if st.kind == kind_source
      then stage_of st.id as_source (create_source reg st.type st.id cfg)
      else if st.kind == kind_transform
      then stage_of st.id as_transform (create_transform reg st.type st.id cfg)
      else if st.kind == kind_sink
      then stage_of st.id as_sink (create_sink reg st.type st.id cfg)
      else err (unknown_stage_kind st.kind)

  unfoldable pub instantiate_stages :
      List StageIr
      → Dict (Stage Source Transform Sink)
      → Outcome (PipelineError E) (Dict (Stage Source Transform Sink))
  unfolding instantiate_stage insert
  instantiate_stages [] made = ok made
  instantiate_stages (st ∷ stages) made = do
    s ← instantiate_stage st
    instantiate_stages stages (insert st.id s made)

  abbrev pub codec_of : String → RegistryError E ⊎ Codec → Outcome (PipelineError E) (Option Codec)
  codec_of id (inl e) = err (codec_failed id e)
  codec_of id (inr c) = ok (some c)

  -- resolveCodecRef at a pointer that is not nil, for the error's stage and role.
  unfoldable pub resolve_ref :
      Dict CodecIr → String → String → CodecRef → Outcome (PipelineError E) (Option Codec)
  unfolding lookup merge_config create_codec is_empty
  resolve_ref codecs id role ref =
      if is_empty ref
      then ok none
      else if not (ref.ref == "")
      then elim (lookup ref.ref codecs) [
        | none ↦ err (ref_not_found id role ref.ref)
        | some cir ↦ codec_of id (create_codec reg cir.type (merge_config cir.config ref.config))
      ]
      else if not (ref.type == "")
      then codec_of id (create_codec reg ref.type ref.config)
      else ok none

  unfoldable pub resolve_codec_ref :
      Dict CodecIr → String → String → Option CodecRef → Outcome (PipelineError E) (Option Codec)
  unfolding resolve_ref
  resolve_codec_ref codecs id role none = ok none
  resolve_codec_ref codecs id role (some ref) = resolve_ref codecs id role ref

  abbrev put_codec : String → Option Codec → Dict Codec → Dict Codec
  put_codec id none table = table
  put_codec id (some c) table = insert id c table

  -- resolveCodecs: the decoders and the encoders.
  unfoldable pub resolve_codecs :
      Dict CodecIr
      → List StageIr
      → Dict Codec × Dict Codec
      → Outcome (PipelineError E) (Dict Codec × Dict Codec)
  unfolding resolve_codec_ref insert
  resolve_codecs codecs [] tables = ok tables
  resolve_codecs codecs (st ∷ stages) tables = do
    dec ← resolve_codec_ref codecs st.id "decoder" st.decoder
    enc ← resolve_codec_ref codecs st.id "encoder" st.encoder
    resolve_codecs codecs stages (put_codec st.id dec tables.0, put_codec st.id enc tables.1)

  module _ {Expr : Type ℓ} (compile : String → E ⊎ Expr) (platform : Platform E) where
    abbrev pub graph_of :
        Outcome (GraphError E) (RuntimeGraph (Program Expr))
        → Outcome (PipelineError E) (RuntimeGraph (Program Expr))
    graph_of (ok g) = ok g
    graph_of (err e) = err (graph_failed e)
    graph_of panic = panic

    unfoldable pub new_pipeline :
        TopologyIr → Outcome (PipelineError E) (Pipeline Source Transform Sink Codec (Program Expr))
    unfolding error_modes instantiate_stages resolve_codecs build_runtime_graph
    new_pipeline ir = do
      stages ← instantiate_stages ir.stages []
      tables ← resolve_codecs ir.codecs ir.stages ([], [])
      g ← graph_of (build_runtime_graph compile platform ir)
      ok (record {
        ir = ir;
        stages = stages;
        stage_error_mode = error_modes ir.stages [];
        decoders = tables.0;
        encoders = tables.1;
        graph = g;
      })
