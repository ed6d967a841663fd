-- ===== src/Config/Defaults.antt =====
-- ApplyObservabilityDefaults, ApplyEngineDefaults and ValidateStageKinds of
-- internal/config/normalize.go.
use eventr.Common.{Bool, true, if◌then◌else◌}
use eventr.Common.Int.{ℤ, pos, is_zero}
use eventr.Common.Codes.{codes, same_codes, to_lower}
use eventr.Config.Types.{StageConfig, EngineConfig, ObservabilityConfig}
use eventr.Config.Edges.{text_or}

abbrev nonzero_or : ℤ → ℤ → ℤ
nonzero_or n d = if is_zero n then d else n

unfoldable pub apply_observability_defaults : ObservabilityConfig → ObservabilityConfig
apply_observability_defaults o = record {
  metrics = record o.metrics {
    port = nonzero_or o.metrics.port (pos 9090);
    path = text_or o.metrics.path "/metrics";
  };
  health = record o.health {
    port = nonzero_or o.health.port (pos 8080);
    liveness = text_or o.health.liveness "/live";
    readiness = text_or o.health.readiness "/ready";
  };
  logging = record {
    level = text_or o.logging.level "info";
    format = text_or o.logging.format "json";
  };
}

unfoldable pub apply_engine_defaults : EngineConfig → EngineConfig
apply_engine_defaults e = record {
  max_workers = nonzero_or e.max_workers (pos 16);
  max_inflight = nonzero_or e.max_inflight (pos 10000);
  error_mode = text_or e.error_mode "propagate";
  drain_timeout = text_or e.drain_timeout "30s";
}

-- ValidateStageKinds: whether it accepts the stage.
unfoldable pub is_known_kind : StageConfig → Bool
unfolding to_lower
is_known_kind st =
    let kind = to_lower (codes st.kind) in
    if same_codes kind (codes "source")
    then true
    else if same_codes kind (codes "transform")
    then true
    else same_codes kind (codes "sink")
