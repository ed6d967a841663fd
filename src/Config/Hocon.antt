-- ===== src/Config/Hocon.antt =====
-- mapToPipelineConfig of internal/config/hocon.go: from the tree of a HOCON file to a configuration.
-- The tree is a parameter: the parser is a library. `sprint` is fmt.Sprint on values that are not
-- strings, `split` is strings.Split at commas; a loop over a Go map runs in the order of its fields.
pub mod Scalars
pub mod Blocks
pub mod Depends
pub mod Deps
use eventr.Common.{
  Bool, true, false, String, List, [], ◌∷◌, ℕ, suc, Option, none, some, if◌then◌else◌, eqb,
}
use eventr.Common.Int.{ℤ, pos}
use eventr.Common.Text.{◌==◌}
use eventr.Common.Dict.{Dict}
use eventr.Config.Value.{
  Value, null, text, int, float, bool, list, object, Items, end, item, Fields, nil, field, find, at,
  as_object,
}
use eventr.Config.Types.{
  CodecRef, CodecConfig, BatchConfig, RetryConfig, DeliverySpec, EdgeBufferConfig, EdgeAttrs,
  EdgeConfig, DependsOnEntry, SourceBlock, TransformBlock, SinkBlock, StepConfig, StageConfig,
  EngineConfig, DlqConfig, MetricsConfig, HealthConfig, LoggingConfig, ObservabilityConfig,
  PipelineConfig,
}
use eventr.Config.Edges.{no_attrs}
use eventr.Config.Hocon.Scalars.{
  int_val, bool_val, as_bool, text_or_empty, as_list, map_any, fields_or_nil, str_val, sprint_any,
  string_map, strings, string_slice,
}
use eventr.Config.Hocon.Blocks.{
  map_engine, map_dlq, map_metrics, map_health, map_logging, map_observability, edge_buffer,
  map_edge_buffer, map_retry, delivery_spec, map_delivery, map_codec_ref, batch_config, map_batch,
  map_edge_attrs,
}
use eventr.Config.Hocon.Depends.{
  HoconError, Parsed, step_not_object, stage_not_object, many_keys, unsupported_item,
  not_list_or_map, in_step, ok, err, cons_parsed, then_parsed, dependency, parse_item, parse_items,
  parse_fields, parse_depends_on,
}

module _ (sprint : Value → String) (split : String → List String) where
  -- `if deps, ok := m["depends_on"]; ok { … }`
  abbrev dependencies : Option Value → Parsed (List DependsOnEntry)
  dependencies none = ok []
  dependencies (some v) = parse_depends_on sprint split v

  abbrev source_block : Option Fields → Option SourceBlock
  source_block none = none
  source_block (some m) = some (record {
    type = str_val sprint split (at "type" m);
    decoder = map_codec_ref sprint split (at "decoder" m);
    config = map_any (at "config" m);
  })

  abbrev transform_block : Option Fields → Option TransformBlock
  transform_block none = none
  transform_block (some m) = some (record {
    type = str_val sprint split (at "type" m);
    predicate = str_val sprint split (at "predicate" m);
    workers = int_val (at "workers" m);
    error_mode = str_val sprint split (at "error_mode" m);
    config = map_any (at "config" m);
  })

  abbrev sink_block : Option Fields → Option SinkBlock
  sink_block none = none
  sink_block (some m) = some (record {
    type = str_val sprint split (at "type" m);
    encoder = map_codec_ref sprint split (at "encoder" m);
    batch = map_batch sprint split (at "batch" m);
    ordering = str_val sprint split (at "ordering" m);
    max_in_flight = int_val (at "max_in_flight" m);
    config = map_any (at "config" m);
  })

  unfoldable pub map_step : Fields → Parsed StepConfig
  unfolding parse_depends_on
  map_step m = then_parsed (dependencies (find "depends_on" m)) (λ deps. ok (record {
    step_type = str_val sprint split (at "step_type" m);
    depends_on = deps;
    source = source_block (as_object (at "source" m));
    transform = transform_block (as_object (at "transform" m));
    sink = sink_block (as_object (at "sink" m));
  }))

  abbrev named {ℓ} : {A : Type ℓ} → String → Parsed A → Parsed (String × A)
  named k (ok x) = ok (k, x)
  named k (err e) = err (in_step k e)

  abbrev step_of : String → Option Fields → Parsed (String × StepConfig)
  step_of k none = err (step_not_object k)
  step_of k (some m) = named k (map_step m)

  unfoldable pub map_steps : Fields → Parsed (Dict StepConfig)
  unfolding map_step
  map_steps nil = ok []
  map_steps (field k v m) =
      then_parsed (step_of k (as_object v)) (λ entry. cons_parsed entry (map_steps m))

  unfoldable pub stage_of : ℕ → Option Fields → Parsed StageConfig
  unfolding parse_depends_on
  stage_of i none = err (stage_not_object i)
  stage_of i (some m) = then_parsed (dependencies (find "depends_on" m)) (λ deps. ok (record {
    id = str_val sprint split (at "id" m);
    kind = str_val sprint split (at "kind" m);
    type = str_val sprint split (at "type" m);
    depends_on = deps;
    decoder = map_codec_ref sprint split (at "decoder" m);
    encoder = map_codec_ref sprint split (at "encoder" m);
    workers = int_val (at "workers" m);
    predicate = str_val sprint split (at "predicate" m);
    error_mode = str_val sprint split (at "error_mode" m);
    batch = map_batch sprint split (at "batch" m);
    ordering = str_val sprint split (at "ordering" m);
    max_in_flight = int_val (at "max_in_flight" m);
    config = map_any (at "config" m);
  }))

  unfoldable pub map_pipeline_stages : ℕ → Items → Parsed (List StageConfig)
  unfolding stage_of
  map_pipeline_stages i end = ok []
  map_pipeline_stages i (item v xs) =
      then_parsed (stage_of i (as_object v)) (λ st. cons_parsed st (map_pipeline_stages (suc i) xs))

  unfoldable pub map_codecs : Items → List CodecConfig
  map_codecs end = []
  map_codecs (item v xs) = elim (as_object v) [
    | none ↦ map_codecs xs
    | some m ↦
        record {
          name = str_val sprint split (at "name" m);
          type = str_val sprint split (at "type" m);
          config = map_any (at "config" m);
        }
        ∷ map_codecs xs
  ]

  unfoldable pub map_edges : Items → List EdgeConfig
  unfolding map_edge_buffer map_delivery
  map_edges end = []
  map_edges (item v xs) = elim (as_object v) [
    | none ↦ map_edges xs
    | some m ↦
        record {
          from = str_val sprint split (at "from" m);
          to = str_val sprint split (at "to" m);
          condition = str_val sprint split (at "condition" m);
          route = str_val sprint split (at "route" m);
          buffer = map_edge_buffer sprint split (at "buffer" m);
          delivery = map_delivery sprint split (at "delivery" m);
          required = as_bool (at "required" m);
        }
        ∷ map_edges xs
  ]

  -- The blocks of the tree that are there and have the right shape; the others keep the zero value.
  abbrev steps_of : Option Fields → Parsed (Dict StepConfig)
  steps_of none = ok []
  steps_of (some m) = map_steps m

  abbrev stages_of : Option Items → Parsed (List StageConfig)
  stages_of none = ok []
  stages_of (some xs) = map_pipeline_stages 0 xs

  abbrev dlq_of : Option Fields → Option DlqConfig
  dlq_of none = none
  dlq_of (some m) = some (map_dlq sprint split m)

  abbrev attrs_of : Option Fields → EdgeAttrs
  attrs_of none = no_attrs
  attrs_of (some m) = map_edge_attrs sprint split (some m)

  abbrev engine_of : Option Fields → EngineConfig
  engine_of none = record {
    max_workers = pos 0;
    max_inflight = pos 0;
    error_mode = "";
    drain_timeout = "";
  }
  engine_of (some m) = map_engine sprint split m

  abbrev observability_of : Option Fields → ObservabilityConfig
  observability_of none = record {
    metrics = map_metrics sprint split none;
    health = map_health sprint split none;
    logging = map_logging sprint split none;
  }
  observability_of (some m) = map_observability sprint split m

  abbrev codecs_of : Option Items → List CodecConfig
  codecs_of none = []
  codecs_of (some xs) = map_codecs xs

  abbrev edges_of : Option Items → List EdgeConfig
  edges_of none = []
  edges_of (some xs) = map_edges xs

  unfoldable pub map_to_pipeline_config : Fields → Parsed PipelineConfig
  unfolding map_steps map_pipeline_stages map_codecs map_edges map_edge_attrs map_engine
      map_observability map_dlq string_map
  map_to_pipeline_config tree = then_parsed (steps_of (as_object (at "steps" tree))) (λ steps.
      then_parsed (stages_of (as_list (at "pipeline" tree))) (λ stages. ok (record {
        api_version = text_or_empty (at "apiVersion" tree);
        kind = text_or_empty (at "kind" tree);
        metadata = string_map sprint split (fields_or_nil (as_object (at "metadata" tree)));
        engine = engine_of (as_object (at "engine" tree));
        steps = steps;
        pipeline = stages;
        codecs = codecs_of (as_list (at "codecs" tree));
        edge_defaults = attrs_of (as_object (at "edgeDefaults" tree));
        dlq = dlq_of (as_object (at "dlq" tree));
        observability = observability_of (as_object (at "observability" tree));
        edges = edges_of (as_list (at "edges" tree));
      })))
