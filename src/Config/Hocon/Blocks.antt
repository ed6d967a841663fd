-- ===== src/Config/Hocon/Blocks.antt =====
-- The blocks of a configuration tree that internal/config/hocon.go maps without errors.
use eventr.Common.{false, String, List, Option, none, some}
use eventr.Common.Int.{pos}
use eventr.Config.Value.{Value, null, text, int, float, bool, list, object, Fields, at, as_object}
use eventr.Config.Types.{
  CodecRef, BatchConfig, RetryConfig, DeliverySpec, EdgeBufferConfig, EdgeAttrs, EngineConfig,
  DlqConfig, MetricsConfig, HealthConfig, LoggingConfig, ObservabilityConfig,
}
use eventr.Config.Edges.{no_attrs}
use eventr.Config.Hocon.Scalars.{int_val, bool_val, as_bool, map_any, str_val, string_slice}

module _ (sprint : Value → String) (split : String → List String) where
  unfoldable pub map_engine : Fields → EngineConfig
  map_engine m = record {
    max_workers = int_val (at "max_workers" m);
    max_inflight = int_val (at "max_inflight" m);
    error_mode = str_val sprint split (at "error_mode" m);
    drain_timeout = str_val sprint split (at "drain_timeout" m);
  }

  unfoldable pub map_dlq : Fields → DlqConfig
  map_dlq m = record {
    sink = str_val sprint split (at "sink" m);
    include_current_payload = bool_val (at "include_current_payload" m);
  }

  abbrev pub map_metrics : Option Fields → MetricsConfig
  map_metrics none = record { enabled = false; port = pos 0; path = "" }
  map_metrics (some m) = record {
    enabled = bool_val (at "enabled" m);
    port = int_val (at "port" m);
    path = str_val sprint split (at "path" m);
  }

  abbrev pub map_health : Option Fields → HealthConfig
  map_health none = record { enabled = false; port = pos 0; liveness = ""; readiness = "" }
  map_health (some m) = record {
    enabled = bool_val (at "enabled" m);
    port = int_val (at "port" m);
    liveness = str_val sprint split (at "liveness" m);
    readiness = str_val sprint split (at "readiness" m);
  }

  abbrev pub map_logging : Option Fields → LoggingConfig
  map_logging none = record { level = ""; format = "" }
  map_logging (some m) = record {
    level = str_val sprint split (at "level" m);
    format = str_val sprint split (at "format" m);
  }

  unfoldable pub map_observability : Fields → ObservabilityConfig
  map_observability m = record {
    metrics = map_metrics (as_object (at "metrics" m));
    health = map_health (as_object (at "health" m));
    logging = map_logging (as_object (at "logging" m));
  }

  abbrev pub edge_buffer : Option Fields → Option EdgeBufferConfig
  edge_buffer none = none
  edge_buffer (some m) = some (record {
    type = str_val sprint split (at "type" m);
    size = int_val (at "size" m);
    strategy = str_val sprint split (at "strategy" m);
    key = string_slice sprint split (at "key" m);
    disk_path = str_val sprint split (at "disk_path" m);
    disk_max_size = int_val (at "disk_max_size" m);
    disk_sync_interval = str_val sprint split (at "disk_sync_interval" m);
  })

  unfoldable pub map_edge_buffer : Value → Option EdgeBufferConfig
  map_edge_buffer v = edge_buffer (as_object v)

  abbrev pub map_retry : Option Fields → Option RetryConfig
  map_retry none = none
  map_retry (some r) =
      some (record { max = int_val (at "max" r); backoff = str_val sprint split (at "backoff" r) })

  abbrev pub delivery_spec : Option Fields → Option DeliverySpec
  delivery_spec none = none
  delivery_spec (some m) = some (record {
    retry = map_retry (as_object (at "retry" m));
    timeout = str_val sprint split (at "timeout" m);
    dlq = str_val sprint split (at "dlq" m);
  })

  unfoldable pub map_delivery : Value → Option DeliverySpec
  map_delivery v = delivery_spec (as_object v)

  unfoldable pub map_codec_ref : Value → Option CodecRef
  map_codec_ref null = none
  map_codec_ref (text s) = some (record { type = s; ref = ""; config = none })
  map_codec_ref (object m) = some (record {
    type = str_val sprint split (at "type" m);
    ref = str_val sprint split (at "ref" m);
    config = map_any (at "config" m);
  })
  map_codec_ref (int n) = none
  map_codec_ref (float s n) = none
  map_codec_ref (bool b) = none
  map_codec_ref (list xs) = none

  abbrev pub batch_config : Option Fields → Option BatchConfig
  batch_config none = none
  batch_config (some m) = some (record {
    size = int_val (at "size" m);
    timeout = str_val sprint split (at "timeout" m);
    max_bytes = int_val (at "max_bytes" m);
  })

  unfoldable pub map_batch : Value → Option BatchConfig
  map_batch v = batch_config (as_object v)

  -- mapEdgeAttrs; `none` is the nil map.
  unfoldable pub map_edge_attrs : Option Fields → EdgeAttrs
  unfolding map_edge_buffer map_delivery
  map_edge_attrs none = no_attrs
  map_edge_attrs (some m) = record {
    condition = str_val sprint split (at "condition" m);
    route = str_val sprint split (at "route" m);
    buffer = map_edge_buffer (at "buffer" m);
    delivery = map_delivery (at "delivery" m);
    required = as_bool (at "required" m);
  }
